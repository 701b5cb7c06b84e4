-- ===== src/Parser/Statement.antt =====
-- What the handlers of internal/parser/languages write alike: the labels of a statement with a keyword
-- and the nodes that they build for a statement.
use codewalker.Prelude.{ℕ, Bytes, bytes, ◌++◌, Option, none, some}
use codewalker.Graph.Builder.{NodeKind, Node, Nodes, node, nil, cons, conditional, block}
use codewalker.Parser.Tree.{TreeInfo, Trees, tree, ended, child, field_text, statement_node}
use codewalker.Parser.Labels.{trim_text}

-- A keyword and the text of a node, if it is there.
unfoldable pub labelled : Bytes → Bytes → Option Bytes → ℕ → Bytes
unfolding trim_text
labelled bare keyword none max = bare
labelled bare keyword (some text) max = keyword ++ trim_text text max

unfoldable pub if_label : Trees → Bytes
unfolding labelled field_text
if_label children = labelled (bytes "if") (bytes "if ") (field_text (bytes "condition") children) 60

-- A statement without children.
unfoldable pub leaf : NodeKind → Bytes → TreeInfo → Node
unfolding statement_node
leaf kind label n = node (statement_node kind label n) nil

-- A branch of a conditional, in a list of branches.
unfoldable pub branch : Bytes → TreeInfo → Nodes → Nodes → Nodes
unfolding statement_node
branch label body statements others =
    cons (node (statement_node block label body) statements) others

-- The conditional of the languages but Go, with the branches that are appended to it.
unfoldable pub if_statement_node : TreeInfo → Trees → Nodes → Node
unfolding if_label statement_node
if_statement_node n children branches =
    node (statement_node conditional (if_label children) n) branches

-- `nd.Label = prefix + nd.Label`
unfoldable pub relabel : Bytes → Node → Node
relabel prefix (node n children) = node (record n { label = prefix ++ n.label }) children

-- `n.Child(0)`, without its children
unfoldable pub first_child : Trees → Option TreeInfo
first_child ended = none
first_child (child field (tree n children) rest) = some n
