-- ===== src/Parser/Golang/Calls.antt =====
-- internal/parser/languages/golang.go: `extractCalls` and `extractCallsFromCallExpr`.
use codewalker.Prelude.{
  or_empty, ◌+◌, Bytes, bytes, false, List, [], ◌∷◌, ◌++◌, none, some, ◌==◌, if◌then◌else◌,
}
use codewalker.Prelude.Int.{pos}
use codewalker.Graph.Builder.{CallRef}
use codewalker.Parser.Tree.{
  TreeInfo, Tree, Trees, tree, ended, child, child_by_field_name, field_text,
}
use codewalker.Parser.Labels.{trim_text}

-- The symbol and the package of a call by the node of its function.
unfoldable pub callee : Tree → Bytes × Bytes
unfolding ◌==◌ field_text trim_text
callee (tree n children) =
    if n.type_name == bytes "selector_expression"
    then (
      or_empty (field_text (bytes "operand") children),
      or_empty (field_text (bytes "field") children),
    )
    else if n.type_name == bytes "identifier"
    then ([], n.content)
    else ([], trim_text n.content 40)

unfoldable pub extract_calls_from_call_expr : TreeInfo → Trees → List CallRef
unfolding ◌==◌ child_by_field_name callee
extract_calls_from_call_expr n children = elim (child_by_field_name (bytes "function") children) [
  | none ↦ []
  | some fn ↦
      let (package_name, symbol) = callee fn in
      if symbol == []
      then []
      else record {
        package_name = package_name;
        symbol = symbol;
        line = pos (n.start_row + 1);
        internal = false;
        target_node_id = [];
      }
        ∷ []
]

-- `extractCalls`: the calls of a subtree, each before those inside it.
unfoldable mutual
  unfolding ◌==◌ extract_calls_from_call_expr

  pub walk : Tree → List CallRef
  walk (tree n children) =
      (if n.type_name == bytes "call_expression"
        then extract_calls_from_call_expr n children
        else [])
      ++ walk_all children

  pub walk_all : Trees → List CallRef
  walk_all ended = []
  walk_all (child field t rest) = walk t ++ walk_all rest
