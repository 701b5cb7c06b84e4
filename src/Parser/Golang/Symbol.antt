-- ===== src/Parser/Golang/Symbol.antt =====
-- The symbol of a session against the labels of a Go file: `Build` compares it with the whole label.
use codewalker.Prelude.{
  Bytes, bytes, Bool, false, List, [], ◌∷◌, ◌++◌, none, some, ◌==◌, ◌≡◌, ◌≢◌, refl, arith, ◌∙◌, sym,
  Bool-cases, inl, inr, ◌⊎◌, All, eq_iff,
}
use codewalker.Graph.Builder.{NodeInfo, Node, node, Building, Entry, build_entry, build}
use codewalker.Parser.Tree.{Trees}
use codewalker.Parser.Golang.{extract_top_level, symbols}
use codewalker.Parser.Golang.Functions.{IsNamed, AllNamed, extract_top_level-AllNamed}

-- A name as a request would give it: not empty, and without a space.
abbrev pub IsName : Bytes → Type 0
IsName s = (s ≢ []) × All (λ c. c ≢ 32) s

-- The sixth byte of a label is not a space only if the label is that of a method.
space_at : (v w s : Bytes) → v ++ (32 ∷ w) ≡ s → All (λ c. c ≢ 32) s → ⊥
space_at v w s same h = go v w (rw same h)
  where
    go : (v w : Bytes) → All (λ c. c ≢ 32) (v ++ (32 ∷ w)) → ⊥
    go [] w (h, _) = h refl
    go (c ∷ v) w (_, h) = go v w h

label-not_name :
    (name symbol : Bytes) (n : NodeInfo)
    (label : (n.label ≡ bytes "func " ++ name)
      ⊎ ((receiver : Bytes) × (n.label ≡ bytes "method " ++ (receiver ++ (bytes "." ++ name)))))
    → IsName symbol
    → (n.label == symbol) ≡ false
label-not_name name symbol n label (full, h) = elim (Bool-cases (n.label == symbol)) [
  | inr e ↦ e
  | inl e ↦
      let same = (eq_iff n.label symbol).0 e in
      absurd (elim label [
        | inl func ↦ space_at (bytes "func") name symbol (sym func ∙ same) h
        | inr (receiver, method) ↦
            space_at (bytes "method") (receiver ++ (bytes "." ++ name)) symbol (sym method ∙ same) h
      ])
]

not_empty : (s : Bytes) → s ≢ [] → (s == []) ≡ false
unfolding ◌==◌
not_empty [] full = absurd (full refl)
not_empty (c ∷ s) full = refl

build_entry-none :
    (omit_raw : Bool) (symbol : Bytes) (names : List Bytes) (nodes : List Node) (b : Building)
    (e : Entry)
    → IsName symbol
    → AllNamed names nodes
    → build_entry omit_raw symbol nodes b e ≡ (b, e)
unfolding build_entry
build_entry-none omit_raw symbol [] [] b e name all = refl
build_entry-none omit_raw symbol [] (_ ∷ nodes) b e name all = elim all [ ]
build_entry-none omit_raw symbol (n ∷ names) [] b e name all = elim all [ ]
build_entry-none omit_raw symbol (n ∷ names) (node i children ∷ nodes) b e (full, h) (at, all) =
    let other = label-not_name n symbol i at (full, h) in
    let named : (symbol == []) ≡ false = not_empty symbol full in
    let skipped = build_entry-none omit_raw symbol names nodes b e (full, h) all in
    ground (arith, skipped)

build-same :
    (nodes : List Node) (omit_raw : Bool) (symbol other : Bytes) (names : List Bytes)
    → IsName symbol
    → IsName other
    → AllNamed names nodes
    → build nodes omit_raw symbol ≡ build nodes omit_raw other
unfolding build
build-same nodes omit_raw symbol other names name other_name all =
    rw
      (
        build_entry-none omit_raw symbol names nodes _ none name all,
        build_entry-none omit_raw other names nodes _ none other_name all,
      )
      refl

-- No name selects a function of a Go file whose declarations have names: the graph of a session is
-- the same for all of them, since a label starts with "func " or "method ".
pub build-any_name :
    (declarations : Trees) (nodes : List Node) (omit_raw : Bool) (symbol other : Bytes)
    → IsNamed declarations
    → extract_top_level declarations ≡ some nodes
    → IsName symbol
    → IsName other
    → build nodes omit_raw symbol ≡ build nodes omit_raw other
build-any_name declarations nodes omit_raw symbol other named run name other_name =
    let (found, same, all) = extract_top_level-AllNamed declarations named in
    let one : nodes ≡ found = ground arith in
    rw one (build-same found omit_raw symbol other (symbols declarations) name other_name all)
