-- ===== src/Parser/Golang.antt =====
-- internal/parser/languages/golang.go: the functions of a Go file and the logical steps of their
-- bodies.
pub mod Calls
pub mod Functions
pub mod Symbol
use codewalker.Prelude.{
  or_empty, ℕ, suc, ◌+◌, Bytes, bytes, Bool, true, false, List, [], ◌∷◌, ◌++◌, Option, none, some,
  ◌==◌, ◌||◌, if◌then◌else◌, drop, leb, length,
}
use codewalker.Prelude.Int.{pos}
use codewalker.Graph.Builder.{
  NodeKind, NodeInfo, CallRef, Node, Nodes, node, nil, cons, function, conditional, loop,
  assignment, call, switch, return_node, block,
}
use codewalker.Parser.Tree.{
  TreeInfo, Tree, Trees, tree, ended, child, info, children_of, child_by_field_name, child_at,
  field_text, new_node,
}
use codewalker.Parser.Labels.{trim_text}
use codewalker.Parser.Golang.Calls.{extract_calls_from_call_expr, walk}
use codewalker.Parser.Statement.{labelled, if_label}

-- The cases of the switch in `extractStatement`.
pub data Statement : Type 0 where
  if_case for_case switch_case return_case assignment_case expression_case go_case defer_case
        block_case other_case :
      Statement

unfoldable pub statement_case : Bytes → Statement
unfolding ◌==◌
statement_case t =
    if t == bytes "if_statement"
    then if_case
    else if t == bytes "for_statement"
    then for_case
    else if t == bytes "switch_statement"
        || (t == bytes "type_switch_statement" || t == bytes "expression_switch_statement")
    then switch_case
    else if t == bytes "return_statement"
    then return_case
    else if t == bytes "short_var_decl" || t == bytes "var_declaration"
    then assignment_case
    else if t == bytes "assignment_statement"
    then assignment_case
    else if t == bytes "expression_statement"
    then expression_case
    else if t == bytes "go_statement"
    then go_case
    else if t == bytes "defer_statement"
    then defer_case
    else if t == bytes "send_statement"
    then assignment_case
    else if t == bytes "block"
    then block_case
    else other_case

unfoldable pub text_of : Option Tree → Option Bytes
text_of none = none
text_of (some t) = some (info t).content

-- `extractIf`, with the branches that it appends.
unfoldable pub if_node : TreeInfo → Trees → Nodes → Node
unfolding if_label new_node
if_node n children branches = node (new_node conditional (if_label children) n) branches

-- The first range clause or for clause.
unfoldable pub for_label : Trees → Bytes
unfolding ◌==◌ trim_text
for_label ended = bytes "for"
for_label (child field (tree n children) rest) =
    let others = for_label rest in
    if n.type_name == bytes "range_clause" || n.type_name == bytes "for_clause"
    then bytes "for " ++ trim_text n.content 60
    else others

unfoldable pub switch_label : Trees → Bytes
unfolding labelled field_text
switch_label children = elim (field_text (bytes "value") children) [
  | some text ↦ labelled (bytes "switch") (bytes "switch ") (some text) 50
  | none ↦ labelled (bytes "switch") (bytes "switch ") (field_text (bytes "tag") children) 50
]

-- A node for a call in a statement of its own: `go`, `defer` or an expression.
unfoldable pub with_calls : NodeInfo → List CallRef → Node
with_calls nd calls = node (record nd { calls = calls }) nil

unfoldable pub extract_expr_statement : TreeInfo → Trees → Option Node
unfolding ◌==◌ with_calls new_node trim_text extract_calls_from_call_expr
extract_expr_statement n ended = none
extract_expr_statement n (child field (tree inner grandchildren) rest) =
    if inner.type_name == bytes "call_expression"
    then some (
        with_calls (new_node call (trim_text inner.content 80) n)
          (extract_calls_from_call_expr inner grandchildren))
    else none

abbrev is_case : Bytes → Bool
is_case t = t == bytes "expression_case" || (t == bytes "default_case" || t == bytes "type_case")

-- `extractBody`, `extractStatement`, `extractFor` and `extractSwitch`. `body_at` is the
-- field that is looked up and its body, the branches are those of `extractIf`; `cases_of` is the loop over the cases of a switch.
unfoldable mutual
  unfolding ◌==◌ statement_case new_node trim_text walk if_node for_label switch_label
      extract_expr_statement with_calls labelled text_of child_at

  pub extract_body : Trees → Nodes
  extract_body ended = nil
  extract_body (child field t rest) = elim (extract_statement t) [
    | none ↦ extract_body rest
    | some n ↦ cons n (extract_body rest)
  ]

  pub extract_statement : Tree → Option Node
  extract_statement (tree n children) = elim (statement_case n.type_name) [
    | if_case ↦ some (if_node n children (then_branch children (else_branch children)))
    | for_case ↦ some (node (new_node loop (for_label children) n) (body_at children))
    | switch_case ↦ some (node (new_node switch (switch_label children) n) (cases_of children))
    | return_case ↦
        some (node (new_node return_node (bytes "return " ++ trim_text n.content 60) n) nil)
    | assignment_case ↦ some (node (new_node assignment (trim_text n.content 80) n) nil)
    | expression_case ↦ extract_expr_statement n children
    | go_case ↦ some (
        with_calls
          (new_node call (labelled (bytes "go ") (bytes "go ") (text_of (child_at children 1)) 60)
            n)
          (walk (tree n children)))
    | defer_case ↦ some (
        with_calls
          (new_node call
            (labelled (bytes "defer ") (bytes "defer ") (text_of (child_at children 1)) 60) n)
          (walk (tree n children)))
    | block_case ↦ some (node (new_node block (bytes "block") n) (extract_body children))
    | other_case ↦ none
  ]

  pub then_branch : Trees → Nodes → Nodes
  then_branch ended others = others
  then_branch (child field (tree body statements) rest) others =
      elim (field == bytes "consequence") [
        | true ↦ cons (node (new_node block (bytes "then") body) (extract_body statements)) others
        | false ↦ then_branch rest others
      ]

  pub else_branch : Trees → Nodes
  else_branch ended = nil
  else_branch (child field (tree alt statements) rest) = elim (field == bytes "alternative") [
    | true ↦ elim (alt.type_name == bytes "if_statement") [
      | true ↦ cons (if_node alt statements (then_branch statements (else_branch statements))) nil
      | false ↦ cons (node (new_node block (bytes "else") alt) (extract_body statements)) nil
    ]
    | false ↦ else_branch rest
  ]

  pub body_at : Trees → Nodes
  body_at ended = nil
  body_at (child field (tree body statements) rest) = elim (field == bytes "body") [
    | true ↦ extract_body statements
    | false ↦ body_at rest
  ]

  pub cases_of : Trees → Nodes
  cases_of ended = nil
  cases_of (child field (tree c statements) rest) = elim (is_case c.type_name) [
    | true ↦
        cons
          (node (new_node block (bytes "case " ++ trim_text c.content 40) c)
            (extract_body statements))
          (cases_of rest)
    | false ↦ cases_of rest
  ]

unfoldable pub func_label : Trees → Bytes
unfolding field_text
func_label children = elim (field_text (bytes "name") children) [
  | none ↦ bytes "func"
  | some name ↦ bytes "func " ++ name
]

-- With a receiver, `label[5:]` is taken, which panics (`none`) if the label has no five bytes.
unfoldable pub receiver_label : Bytes → Option Bytes → Option Bytes
receiver_label label none = some label
receiver_label label (some receiver) =
    if leb 5 (length label)
    then some (bytes "method " ++ (receiver ++ (bytes "." ++ drop 5 label)))
    else none

unfoldable pub build_func_node : TreeInfo → Trees → Option Node
unfolding receiver_label func_label field_text body_at new_node
build_func_node n children =
    elim (receiver_label (func_label children) (field_text (bytes "receiver") children)) [
      | none ↦ none
      | some label ↦ some (node (new_node function label n) (body_at children))
    ]

abbrev pub is_declaration : Bytes → Bool
is_declaration t = t == bytes "function_declaration" || t == bytes "method_declaration"

-- `none` is a panic.
unfoldable pub extract_top_level : Trees → Option (List Node)
unfolding ◌==◌ build_func_node
extract_top_level ended = some []
extract_top_level (child field (tree n children) rest) = elim (is_declaration n.type_name) [
  | false ↦ extract_top_level rest
  | true ↦ elim (build_func_node n children) [
    | none ↦ none
    | some first ↦ elim (extract_top_level rest) [
      | none ↦ none
      | some others ↦ some (first ∷ others)
    ]
  ]
]

-- The names that `Symbols` lists.
unfoldable pub symbols : Trees → List Bytes
unfolding ◌==◌ field_text
symbols ended = []
symbols (child field (tree n children) rest) = elim (is_declaration n.type_name) [
  | false ↦ symbols rest
  | true ↦ elim (field_text (bytes "name") children) [
    | none ↦ symbols rest
    | some name ↦ name ∷ symbols rest
  ]
]
