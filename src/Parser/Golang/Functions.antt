-- ===== src/Parser/Golang/Functions.antt =====
-- The nodes of a Go file and the symbols that it lists.
use codewalker.Prelude.{
  Bytes, bytes, true, List, [], ◌∷◌, ◌++◌, Option, none, some, leb, length, ◌≡◌, ◌≢◌, refl, arith,
  ap, ◌∙◌, Bool-cases, Option-cases, inl, inr, ◌⊎◌,
}
use codewalker.Graph.Builder.{Node, node, function}
use codewalker.Parser.Tree.{TreeInfo, Trees, tree, ended, child, field_text, new_node}
use codewalker.Parser.Golang.{
  func_label, receiver_label, build_func_node, body_at, is_declaration, extract_top_level, symbols,
}

-- Every declaration of the list has a name.
abbrev pub IsNamed : Trees → Type 0
IsNamed ended = Unit
IsNamed (child field (tree n children) rest) =
    (is_declaration n.type_name ≡ true → field_text (bytes "name") children ≢ none) × IsNamed rest

-- The label of a function, or of a method of a receiver.
abbrev pub Names : Bytes → Node → Type 0
Names name (node n children) =
    (n.label ≡ bytes "func " ++ name)
    ⊎ ((receiver : Bytes) × (n.label ≡ bytes "method " ++ (receiver ++ (bytes "." ++ name))))

-- One node for each name, in order.
abbrev pub AllNamed : List Bytes → List Node → Type 0
AllNamed [] [] = Unit
AllNamed (name ∷ names) (n ∷ nodes) = Names name n × AllNamed names nodes
AllNamed _ _ = ⊥

func_label-named :
    (children : Trees) {name : Bytes}
    → field_text (bytes "name") children ≡ some name
    → func_label children ≡ bytes "func " ++ name
unfolding func_label
func_label-named children named = rw (named, func_label) refl

build_func_node-label :
    (n : TreeInfo) (children : Trees) (receiver : Option Bytes) {name label : Bytes}
    → field_text (bytes "name") children ≡ some name
    → field_text (bytes "receiver") children ≡ receiver
    → receiver_label (bytes "func " ++ name) receiver ≡ some label
    → build_func_node n children ≡ some (node (new_node function label n) (body_at children))
unfolding build_func_node
build_func_node-label n children receiver {label = label} named received labels =
    let found : receiver_label (func_label children) (field_text (bytes "receiver") children)
        ≡ some label =
      ap (λ l. receiver_label l (field_text (bytes "receiver") children))
        (func_label-named children named)
      ∙ ap (receiver_label (bytes "func " ++ _)) received
      ∙ labels in
    rw (found, build_func_node) refl

receiver_label-func :
    (name receiver : Bytes)
    → receiver_label (bytes "func " ++ name) (some receiver)
      ≡ some (bytes "method " ++ (receiver ++ (bytes "." ++ name)))
unfolding receiver_label
receiver_label-func name receiver =
    let long : leb 5 (length (bytes "func " ++ name)) ≡ true = ground arith in rw long refl

build_func_node-Names :
    (n : TreeInfo) (children : Trees) {name : Bytes}
    → field_text (bytes "name") children ≡ some name
    → (nd : Node) × (build_func_node n children ≡ some nd) × Names name nd
unfolding receiver_label new_node
build_func_node-Names n children {name} named =
    elim (Option-cases (field_text (bytes "receiver") children)) [
      | inl e ↦ (_, build_func_node-label n children none named e refl, inl refl)
      | inr (receiver, e) ↦ (
        _,
        build_func_node-label n children (some receiver) named e
            (receiver_label-func name receiver),
        inr (receiver, refl),
      )
    ]

-- If every function and method of a Go file has a name, the handler takes no slice out of range: it
-- finds one node for each symbol that it lists, in order, whose label ends in that symbol.
pub extract_top_level-AllNamed :
    (declarations : Trees)
    → IsNamed declarations
    → (nodes : List Node) × (extract_top_level declarations ≡ some nodes)
      × AllNamed (symbols declarations) nodes
unfolding extract_top_level symbols
extract_top_level-AllNamed ended h = ([], refl, tt)
extract_top_level-AllNamed (child field (tree n children) rest) (named, h) =
    let (nodes, run, all) = extract_top_level-AllNamed rest h in
    elim (Bool-cases (is_declaration n.type_name)) [
      | inr e ↦ (nodes, rw (e, extract_top_level) run, rw (e, symbols) all)
      | inl e ↦ elim (Option-cases (field_text (bytes "name") children)) [
        | inl lost ↦ absurd (named e lost)
        | inr (name, found) ↦
            let (nd, built, at) = build_func_node-Names n children found in
            (
              nd ∷ nodes,
              rw (e, built, run, extract_top_level) refl,
              rw (e, found, symbols) (at, all),
            )
      ]
    ]
