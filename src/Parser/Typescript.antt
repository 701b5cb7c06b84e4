-- ===== src/Parser/Typescript.antt =====
-- internal/parser/languages/typescript.go: the functions of a TypeScript file and the steps of their
-- bodies.
use codewalker.Prelude.{
  Bytes, bytes, Bool, true, false, List, [], ◌∷◌, ◌++◌, Option, none, some, ◌==◌, ◌||◌,
  if◌then◌else◌,
}
use codewalker.Prelude.Strings.{split_n}
use codewalker.Graph.Builder.{
  Node, Nodes, node, nil, cons, function, loop, assignment, call, switch, return_node,
}
use codewalker.Parser.Tree.{
  TreeInfo, Tree, Trees, tree, ended, child, child_by_field_name, field_text, new_node,
  statement_node,
}
use codewalker.Parser.Statement.{leaf, branch, if_statement_node, first_child}
use codewalker.Parser.Labels.{trim_text}

-- The cases of the switch in `extractTSStatement`.
pub data Statement : Type 0 where
  if_case loop_case switch_case return_case assignment_case expression_case other_case : Statement

unfoldable pub statement_case : Bytes → Statement
unfolding ◌==◌
statement_case t =
    if t == bytes "if_statement"
    then if_case
    else if t == bytes "for_statement"
        || (t == bytes "for_in_statement"
            || (t == bytes "while_statement" || t == bytes "do_statement"))
    then loop_case
    else if t == bytes "switch_statement"
    then switch_case
    else if t == bytes "return_statement"
    then return_case
    else if t == bytes "variable_declaration" || t == bytes "lexical_declaration"
    then assignment_case
    else if t == bytes "expression_statement"
    then expression_case
    else other_case

-- An expression that is a call or waits for one.
unfoldable pub call_statement : TreeInfo → Option TreeInfo → Option Node
unfolding ◌==◌ leaf trim_text
call_statement n none = none
call_statement n (some inner) =
    if inner.type_name == bytes "call_expression" || inner.type_name == bytes "await_expression"
    then some (leaf call (trim_text inner.content 80) n)
    else none

-- `strings.SplitN(n.Type(), "_", 2)[0]`
unfoldable pub first_word : List Bytes → Bytes
first_word [] = []
first_word (w ∷ ws) = w

unfoldable pub loop_label : TreeInfo → Bytes
unfolding trim_text split_n first_word
loop_label n = first_word (split_n n.type_name 95 2) ++ (bytes " " ++ trim_text n.content 50)

-- `extractTSBody`, `extractTSStatement` and the branches of `extractTSIf`.
unfoldable mutual
  unfolding ◌==◌ statement_case if_statement_node branch leaf trim_text loop_label call_statement
      first_child statement_node

  pub extract_body : Trees → Nodes
  extract_body ended = nil
  extract_body (child field t rest) = elim (extract_statement t) [
    | none ↦ extract_body rest
    | some n ↦ cons n (extract_body rest)
  ]

  pub extract_statement : Tree → Option Node
  extract_statement (tree n children) = elim (statement_case n.type_name) [
    | if_case ↦ some (if_statement_node n children (then_branch children (else_branch children)))
    | loop_case ↦ some (node (statement_node loop (loop_label n) n) (body_at children))
    | switch_case ↦ some (leaf switch (bytes "switch " ++ trim_text n.content 40) n)
    | return_case ↦ some (leaf return_node (trim_text n.content 60) n)
    | assignment_case ↦ some (leaf assignment (trim_text n.content 80) n)
    | expression_case ↦ call_statement n (first_child children)
    | other_case ↦ none
  ]

  pub then_branch : Trees → Nodes → Nodes
  then_branch ended others = others
  then_branch (child field (tree body statements) rest) others =
      elim (field == bytes "consequence") [
        | true ↦ branch (bytes "then") body (extract_body statements) others
        | false ↦ then_branch rest others
      ]

  pub else_branch : Trees → Nodes
  else_branch ended = nil
  else_branch (child field (tree alt statements) rest) = elim (field == bytes "alternative") [
    | true ↦ branch (bytes "else") alt (extract_body statements) nil
    | false ↦ else_branch rest
  ]

  pub body_at : Trees → Nodes
  body_at ended = nil
  body_at (child field (tree body statements) rest) = elim (field == bytes "body") [
    | true ↦ extract_body statements
    | false ↦ body_at rest
  ]

abbrev named : Bytes → Option Bytes → Option Bytes
named keyword none = none
named keyword (some name) = some (keyword ++ name)

abbrev or_text : Option Bytes → Bytes → Bytes
or_text none text = text
or_text (some label) text = label

-- `tsFuncLabel`, with the lookup of the declaration that an export wraps.
unfoldable mutual
  unfolding ◌==◌ field_text trim_text

  pub func_label : Tree → Bytes
  func_label (tree n children) =
      let exported = declaration_label children in
      or_text
        (if n.type_name == bytes "function_declaration"
          then named (bytes "function ") (field_text (bytes "name") children)
          else if n.type_name == bytes "method_definition"
          then named (bytes "method ") (field_text (bytes "name") children)
          else if n.type_name == bytes "export_statement"
          then exported
          else none)
        (trim_text n.content 40)

  pub declaration_label : Trees → Option Bytes
  declaration_label ended = none
  declaration_label (child field t rest) = elim (field == bytes "declaration") [
    | true ↦ some (func_label t)
    | false ↦ declaration_label rest
  ]

unfoldable pub build_func_node : Tree → Node
unfolding func_label body_at new_node
build_func_node (tree n children) =
    node (new_node function (func_label (tree n children)) n) (body_at children)

abbrev is_top_level : Bytes → Bool
is_top_level t =
    t == bytes "function_declaration"
    || (t == bytes "function"
        || (t == bytes "method_definition"
            || (t == bytes "arrow_function" || t == bytes "export_statement")))

unfoldable pub extract_top_level : Trees → List Node
unfolding ◌==◌ build_func_node
extract_top_level ended = []
extract_top_level (child field (tree n children) rest) =
    let others = extract_top_level rest in
    if is_top_level n.type_name then build_func_node (tree n children) ∷ others else others

abbrev cons_name : Option Bytes → List Bytes → List Bytes
cons_name none names = names
cons_name (some name) names = name ∷ names

abbrev name_of : Option Tree → Option Bytes
name_of none = none
name_of (some (tree n children)) = field_text (bytes "name") children

unfoldable pub symbols : Trees → List Bytes
unfolding ◌==◌ field_text child_by_field_name
symbols ended = []
symbols (child field (tree n children) rest) =
    let others = symbols rest in
    if n.type_name == bytes "function_declaration"
    then cons_name (field_text (bytes "name") children) others
    else if n.type_name == bytes "export_statement"
    then cons_name (name_of (child_by_field_name (bytes "declaration") children)) others
    else others
