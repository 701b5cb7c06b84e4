-- ===== src/Parser/Php.antt =====
-- internal/parser/languages/php.go: the functions and methods of a PHP file and the steps of their
-- bodies.
use codewalker.Prelude.{
  Bytes, bytes, true, false, List, [], ◌∷◌, ◌++◌, Option, none, some, ◌==◌, ◌||◌, if◌then◌else◌,
  or_empty,
}
use codewalker.Graph.Builder.{
  Node, Nodes, node, nil, cons, function, loop, assignment, call, switch, return_node,
}
use codewalker.Parser.Tree.{
  TreeInfo, Tree, Trees, tree, ended, child, children_of, child_by_field_name, field_text, new_node,
}
use codewalker.Parser.Statement.{leaf, branch, relabel, if_statement_node, first_child}
use codewalker.Parser.Labels.{trim_text}

-- The cases of the switch in `extractPHPStatement`.
pub data Statement : Type 0 where
  if_case loop_case switch_case return_case expression_case other_case : Statement

unfoldable pub statement_case : Bytes → Statement
unfolding ◌==◌
statement_case t =
    if t == bytes "if_statement"
    then if_case
    else if t == bytes "for_statement"
        || (t == bytes "foreach_statement"
            || (t == bytes "while_statement" || t == bytes "do_statement"))
    then loop_case
    else if t == bytes "switch_statement"
    then switch_case
    else if t == bytes "return_statement"
    then return_case
    else if t == bytes "expression_statement"
    then expression_case
    else other_case

-- An expression that is an assignment or a call.
unfoldable pub expression_step : TreeInfo → Option TreeInfo → Option Node
unfolding ◌==◌ leaf trim_text
expression_step n none = none
expression_step n (some inner) =
    if inner.type_name == bytes "assignment_expression"
    then some (leaf assignment (trim_text inner.content 80) n)
    else if inner.type_name == bytes "function_call_expression"
    then some (leaf call (trim_text inner.content 80) n)
    else none

-- `extractPHPBody`, `extractPHPStatement` and the branches of its conditional.
unfoldable mutual
  unfolding ◌==◌ statement_case if_statement_node branch leaf trim_text expression_step first_child

  pub extract_body : Trees → Nodes
  extract_body ended = nil
  extract_body (child field t rest) = elim (extract_statement t) [
    | none ↦ extract_body rest
    | some n ↦ cons n (extract_body rest)
  ]

  pub extract_statement : Tree → Option Node
  extract_statement (tree n children) = elim (statement_case n.type_name) [
    | if_case ↦ some (if_statement_node n children (then_branch children (else_branch children)))
    | loop_case ↦ some (leaf loop (n.type_name ++ (bytes " " ++ trim_text n.content 50)) n)
    | switch_case ↦ some (leaf switch (bytes "switch " ++ trim_text n.content 40) n)
    | return_case ↦ some (leaf return_node (trim_text n.content 60) n)
    | expression_case ↦ expression_step n (first_child children)
    | other_case ↦ none
  ]

  pub then_branch : Trees → Nodes → Nodes
  then_branch ended others = others
  then_branch (child field (tree body statements) rest) others = elim (field == bytes "body") [
    | true ↦ branch (bytes "then") body (extract_body statements) others
    | false ↦ then_branch rest others
  ]

  pub else_branch : Trees → Nodes
  else_branch ended = nil
  else_branch (child field (tree alt statements) rest) = elim (field == bytes "alternative") [
    | true ↦ branch (bytes "else") alt (extract_body statements) nil
    | false ↦ else_branch rest
  ]

  pub body_at : Trees → Nodes
  body_at ended = nil
  body_at (child field (tree body statements) rest) = elim (field == bytes "body") [
    | true ↦ extract_body statements
    | false ↦ body_at rest
  ]

unfoldable pub func_label : Trees → Bytes
unfolding field_text
func_label children = elim (field_text (bytes "name") children) [
  | none ↦ bytes "function"
  | some name ↦ bytes "function " ++ name
]

unfoldable pub build_func_node : TreeInfo → Trees → Node
unfolding func_label body_at new_node
build_func_node n children = node (new_node function (func_label children) n) (body_at children)

-- The methods in the body of a class.
unfoldable pub methods_of : Bytes → Trees → List Node
unfolding ◌==◌ build_func_node relabel
methods_of class_name ended = []
methods_of class_name (child field (tree n children) rest) =
    let others = methods_of class_name rest in
    if n.type_name == bytes "method_declaration"
    then relabel (class_name ++ bytes "::") (build_func_node n children) ∷ others
    else others

unfoldable pub extract_class_methods : Trees → List Node
unfolding child_by_field_name methods_of field_text
extract_class_methods children = elim (child_by_field_name (bytes "body") children) [
  | none ↦ []
  | some body ↦ methods_of (or_empty (field_text (bytes "name") children)) (children_of body)
]

unfoldable pub extract_top_level : Trees → List Node
unfolding ◌==◌ build_func_node extract_class_methods
extract_top_level ended = []
extract_top_level (child field (tree n children) rest) =
    let others = extract_top_level rest in
    if n.type_name == bytes "function_definition"
    then build_func_node n children ∷ others
    else if n.type_name == bytes "class_declaration"
    then extract_class_methods children ++ others
    else others

-- `walkPHPForFunctions`, and its loop over the children.
unfoldable mutual
  unfolding ◌==◌ field_text

  pub symbols : Tree → List Bytes
  symbols (tree n children) =
      (if n.type_name == bytes "function_definition" || n.type_name == bytes "method_declaration"
        then elim (field_text (bytes "name") children) [ none ↦ [] | some name ↦ name ∷ [] ]
        else [])
      ++ symbols_of children

  pub symbols_of : Trees → List Bytes
  symbols_of ended = []
  symbols_of (child field t rest) = symbols t ++ symbols_of rest
