-- ===== src/Parser/Tree.antt =====
-- What the program uses of tree-sitter: a tree of nodes, each with its type, its points and the
-- bytes of the source that it spans, and its children with the field names that they have (the
-- empty name for none). How a source is parsed into such a tree is a parameter of the handlers.
-- Also `newNode` of internal/parser/languages/golang.go, and the literals that the other languages
-- build in its place.
use codewalker.Prelude.{
  ℕ, zero, suc, Bytes, bytes, true, false, [], ◌++◌, Option, none, some, ◌==◌, ◌+◌,
}
use codewalker.Prelude.Int.{pos}
use codewalker.Prelude.Strings.{itoa}
use codewalker.Graph.Builder.{
  NodeKind, NodeInfo, function, conditional, loop, assignment, call, switch, return_node, block,
}

pub record TreeInfo : Type 0 where
  pub type_name : Bytes
  pub start_row : ℕ
  pub start_column : ℕ
  pub end_row : ℕ
  pub end_column : ℕ
  pub content : Bytes

mutual
  pub data Tree : Type 0 where
    tree : TreeInfo → Trees → Tree

  pub data Trees : Type 0 where
    ended : Trees
    child : Bytes → Tree → Trees → Trees

abbrev pub info : Tree → TreeInfo
info (tree n children) = n

abbrev pub children_of : Tree → Trees
children_of (tree n children) = children

-- `n.ChildByFieldName(name)`
unfoldable pub child_by_field_name : Bytes → Trees → Option Tree
unfolding ◌==◌
child_by_field_name name ended = none
child_by_field_name name (child field t rest) = elim (field == name) [
  | true ↦ some t
  | false ↦ child_by_field_name name rest
]

-- `n.Child(i)`
unfoldable pub child_at : Trees → ℕ → Option Tree
child_at ended i = none
child_at (child field t rest) zero = some t
child_at (child field t rest) (suc i) = child_at rest i

-- The text of the field `name`, where there is one.
unfoldable pub field_text : Bytes → Trees → Option Bytes
unfolding child_by_field_name
field_text name children = elim (child_by_field_name name children) [
  | none ↦ none
  | some t ↦ some ((info t).content)
]

unfoldable pub kind_text : NodeKind → Bytes
kind_text function = bytes "function"
kind_text conditional = bytes "conditional"
kind_text loop = bytes "loop"
kind_text assignment = bytes "assignment"
kind_text call = bytes "call"
kind_text switch = bytes "switch"
kind_text return_node = bytes "return"
kind_text block = bytes "block"

-- `fmt.Sprintf("%s:%d:%d", kind, row, column)`
unfoldable pub node_id : NodeKind → TreeInfo → Bytes
unfolding kind_text itoa
node_id kind n =
    kind_text kind
    ++ (bytes ":" ++ (itoa (pos n.start_row) ++ (bytes ":" ++ itoa (pos n.start_column))))

unfoldable pub new_node : NodeKind → Bytes → TreeInfo → NodeInfo
unfolding node_id
new_node kind label n = record {
  id = node_id kind n;
  kind = kind;
  label = label;
  start_line = pos (n.start_row + 1);
  end_line = pos (n.end_row + 1);
  start_col = pos n.start_column;
  end_col = pos n.end_column;
  text = n.content;
  calls = [];
}

-- The literal of a statement in the other languages, which sets no ID and no columns.
unfoldable pub statement_node : NodeKind → Bytes → TreeInfo → NodeInfo
statement_node kind label n = record {
  id = [];
  kind = kind;
  label = label;
  start_line = pos (n.start_row + 1);
  end_line = pos (n.end_row + 1);
  start_col = pos 0;
  end_col = pos 0;
  text = n.content;
  calls = [];
}
