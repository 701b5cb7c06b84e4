-- ===== src/Parser/Python.antt =====
-- internal/parser/languages/python.go: the functions and methods of a Python file and the steps of
-- their bodies.
use codewalker.Prelude.{
  Bytes, bytes, true, false, List, [], ◌∷◌, ◌++◌, Option, none, some, ◌==◌, ◌||◌, if◌then◌else◌,
  take, or_empty,
}
use codewalker.Graph.Builder.{
  Node, Nodes, node, nil, cons, function, loop, assignment, call, switch, return_node, block,
}
use codewalker.Parser.Tree.{
  TreeInfo, Tree, Trees, tree, ended, child, children_of, child_by_field_name, field_text, new_node,
  statement_node,
}
use codewalker.Parser.Statement.{leaf, branch, relabel, if_statement_node, first_child}
use codewalker.Parser.Labels.{trim_text}

-- The cases of the switch in `extractPyStatement`.
pub data Statement : Type 0 where
  if_case loop_case return_case assignment_case expression_case with_case try_case match_case
        other_case :
      Statement

unfoldable pub statement_case : Bytes → Statement
unfolding ◌==◌
statement_case t =
    if t == bytes "if_statement"
    then if_case
    else if t == bytes "for_statement" || t == bytes "while_statement"
    then loop_case
    else if t == bytes "return_statement"
    then return_case
    else if t == bytes "assignment"
        || (t == bytes "augmented_assignment" || t == bytes "annotated_assignment")
    then assignment_case
    else if t == bytes "expression_statement"
    then expression_case
    else if t == bytes "with_statement"
    then with_case
    else if t == bytes "try_statement"
    then try_case
    else if t == bytes "match_statement"
    then match_case
    else other_case

-- An expression that is a call.
unfoldable pub call_statement : TreeInfo → Option TreeInfo → Option Node
unfolding ◌==◌ leaf trim_text
call_statement n none = none
call_statement n (some inner) =
    if inner.type_name == bytes "call"
    then some (leaf call (trim_text inner.content 80) n)
    else none

-- The first three bytes of the type and the text of the loop.
unfoldable pub loop_label : TreeInfo → Bytes
unfolding trim_text
loop_label n = take 3 n.type_name ++ (bytes " " ++ trim_text n.content 50)

-- `extractPyBody`, `extractPyStatement` and the branches of `extractPyIf`.
unfoldable mutual
  unfolding ◌==◌ statement_case if_statement_node branch leaf trim_text loop_label call_statement
      first_child statement_node

  pub extract_body : Trees → Nodes
  extract_body ended = nil
  extract_body (child field t rest) = elim (extract_statement t) [
    | none ↦ extract_body rest
    | some n ↦ cons n (extract_body rest)
  ]

  pub extract_statement : Tree → Option Node
  extract_statement (tree n children) = elim (statement_case n.type_name) [
    | if_case ↦ some (if_statement_node n children (then_branch children (else_branch children)))
    | loop_case ↦ some (node (statement_node loop (loop_label n) n) (body_at children))
    | return_case ↦ some (leaf return_node (trim_text n.content 60) n)
    | assignment_case ↦ some (leaf assignment (trim_text n.content 80) n)
    | expression_case ↦ call_statement n (first_child children)
    | with_case ↦ some (leaf block (bytes "with " ++ trim_text n.content 50) n)
    | try_case ↦ some (leaf block (bytes "try") n)
    | match_case ↦ some (leaf switch (bytes "match " ++ trim_text n.content 40) n)
    | other_case ↦ none
  ]

  pub then_branch : Trees → Nodes → Nodes
  then_branch ended others = others
  then_branch (child field (tree body statements) rest) others =
      elim (field == bytes "consequence") [
        | true ↦ branch (bytes "then") body (extract_body statements) others
        | false ↦ then_branch rest others
      ]

  pub else_branch : Trees → Nodes
  else_branch ended = nil
  else_branch (child field (tree alt statements) rest) = elim (field == bytes "alternative") [
    | true ↦ elim (alt.type_name == bytes "elif_clause" || alt.type_name == bytes "if_statement") [
      | true ↦
          cons (if_statement_node alt statements (then_branch statements (else_branch statements)))
            nil
      | false ↦ branch (bytes "else") alt (extract_body statements) nil
    ]
    | false ↦ else_branch rest
  ]

  pub body_at : Trees → Nodes
  body_at ended = nil
  body_at (child field (tree body statements) rest) = elim (field == bytes "body") [
    | true ↦ extract_body statements
    | false ↦ body_at rest
  ]

unfoldable pub func_label : Trees → Bytes
unfolding field_text
func_label children = elim (field_text (bytes "name") children) [
  | none ↦ bytes "def"
  | some name ↦ bytes "def " ++ name
]

unfoldable pub build_func_node : TreeInfo → Trees → Node
unfolding func_label body_at new_node
build_func_node n children = node (new_node function (func_label children) n) (body_at children)

-- The methods in the body of a class.
unfoldable pub methods_of : Bytes → Trees → List Node
unfolding ◌==◌ build_func_node relabel
methods_of class_name ended = []
methods_of class_name (child field (tree n children) rest) =
    let others = methods_of class_name rest in
    if n.type_name == bytes "function_definition"
    then relabel (class_name ++ bytes ".") (build_func_node n children) ∷ others
    else others

unfoldable pub extract_class_methods : Trees → List Node
unfolding child_by_field_name methods_of field_text
extract_class_methods children = elim (child_by_field_name (bytes "body") children) [
  | none ↦ []
  | some body ↦ methods_of (or_empty (field_text (bytes "name") children)) (children_of body)
]

-- The definitions under a decorator.
unfoldable pub decorated : Trees → List Node
unfolding ◌==◌ build_func_node
decorated ended = []
decorated (child field (tree n children) rest) =
    let others = decorated rest in
    if n.type_name == bytes "function_definition"
    then build_func_node n children ∷ others
    else others

unfoldable pub extract_top_level : Trees → List Node
unfolding ◌==◌ build_func_node extract_class_methods decorated
extract_top_level ended = []
extract_top_level (child field (tree n children) rest) =
    let others = extract_top_level rest in
    if n.type_name == bytes "function_definition"
    then build_func_node n children ∷ others
    else if n.type_name == bytes "class_definition"
    then extract_class_methods children ++ others
    else if n.type_name == bytes "decorated_definition"
    then decorated children ++ others
    else others

unfoldable pub symbols : Trees → List Bytes
unfolding ◌==◌ field_text
symbols ended = []
symbols (child field (tree n children) rest) =
    let others = symbols rest in
    if n.type_name == bytes "function_definition" || n.type_name == bytes "decorated_definition"
    then elim (field_text (bytes "name") children) [ none ↦ others | some name ↦ name ∷ others ]
    else others
