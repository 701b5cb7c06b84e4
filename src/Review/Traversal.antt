-- ===== src/Review/Traversal.antt =====
-- Walking a review: `Forward` from the entry visits the hunks in the order of the files.
use mathlib.Core.List.{foldl}
use mathlib.Core.Path.{subst}
use codewalker.Prelude.{
  ℕ, zero, suc, Bytes, Bool, List, [], ◌∷◌, ◌++◌, map, some, get_elem?, ◌≡◌, ◌≢◌, refl, sym, ap,
  ◌∙◌, arith, All, All-append,
}
use codewalker.Prelude.Assoc.{Assoc}
use codewalker.Forge.{Hunk, ReviewFile}
use codewalker.Graph.{Step}
use codewalker.Graph.Walker.{Walker, forward}
use codewalker.Review.{
  Builder, HunkGraph, empty_builder, link_step, hunk_step, add_hunk, add_hunks, add_files, lines_of,
  build_hunk_graph,
}
use codewalker.Review.Chain.{IsChain, Distinct, Named, link_all-IsChain_all}

-- The steps that the files should give: for each file in turn, one for each hunk in turn.
unfoldable pub review_steps : List ReviewFile → Assoc (List Bytes) → Bool → List Step
review_steps [] file_lines omit_raw = []
review_steps (f ∷ files) file_lines omit_raw =
    map (hunk_step f.path (lines_of file_lines f.path) omit_raw) f.hunks
    ++ review_steps files file_lines omit_raw

foldl-append :
    (b : Builder) (l r : List Step)
    → foldl link_step b (l ++ r) ≡ foldl link_step (foldl link_step b l) r
foldl-append b [] r = refl
foldl-append b (x ∷ l) r = foldl-append (link_step b x) l r

add_hunks-builder :
    (path : Bytes) (lines : List Bytes) (omit_raw : Bool) (h : HunkGraph) (hunks : List Hunk)
    → (add_hunks path lines omit_raw h hunks).builder
      ≡ foldl link_step h.builder (map (hunk_step path lines omit_raw) hunks)
unfolding add_hunks
add_hunks-builder path lines omit_raw h [] = refl
add_hunks-builder path lines omit_raw h (x ∷ hunks) =
    add_hunks-builder path lines omit_raw (add_hunk path lines omit_raw h x) hunks

add_files-builder :
    (file_lines : Assoc (List Bytes)) (omit_raw : Bool) (h : HunkGraph) (files : List ReviewFile)
    → (add_files file_lines omit_raw h files).builder
      ≡ foldl link_step h.builder (review_steps files file_lines omit_raw)
unfolding review_steps add_files
add_files-builder file_lines omit_raw h [] = refl
add_files-builder file_lines omit_raw h (f ∷ files) =
    add_files-builder file_lines omit_raw
      (add_hunks f.path (lines_of file_lines f.path) omit_raw h f.hunks) files
    ∙ ap (λ (b : Builder). foldl link_step b (review_steps files file_lines omit_raw))
        (add_hunks-builder f.path (lines_of file_lines f.path) omit_raw h f.hunks)
    ∙ sym (
        foldl-append h.builder
          (map (hunk_step f.path (lines_of file_lines f.path) omit_raw) f.hunks)
          (review_steps files file_lines omit_raw))

hunk_steps-Named :
    (path : Bytes) (lines : List Bytes) (omit_raw : Bool) (hunks : List Hunk)
    → Named (map (hunk_step path lines omit_raw) hunks)
unfolding hunk_step
hunk_steps-Named path lines omit_raw [] = tt
hunk_steps-Named path lines omit_raw (h ∷ hunks) = (cc, hunk_steps-Named path lines omit_raw hunks)

review_steps-Named :
    (files : List ReviewFile) (file_lines : Assoc (List Bytes)) (omit_raw : Bool)
    → Named (review_steps files file_lines omit_raw)
unfolding review_steps
review_steps-Named [] file_lines omit_raw = tt
review_steps-Named (f ∷ files) file_lines omit_raw =
    All-append (λ (t : Step). t.id ≢ [])
      (map (hunk_step f.path (lines_of file_lines f.path) omit_raw) f.hunks)
      (review_steps files file_lines omit_raw)
      (hunk_steps-Named f.path (lines_of file_lines f.path) omit_raw f.hunks)
      (review_steps-Named files file_lines omit_raw)

abbrev pub Bare : List Step → Type 0
Bare = All (λ (t : Step). t.edges ≡ [])

hunk_steps-Bare :
    (path : Bytes) (lines : List Bytes) (omit_raw : Bool) (hunks : List Hunk)
    → Bare (map (hunk_step path lines omit_raw) hunks)
unfolding hunk_step
hunk_steps-Bare path lines omit_raw [] = tt
hunk_steps-Bare path lines omit_raw (h ∷ hunks) = (refl, hunk_steps-Bare path lines omit_raw hunks)

pub review_steps-Bare :
    (files : List ReviewFile) (file_lines : Assoc (List Bytes)) (omit_raw : Bool)
    → Bare (review_steps files file_lines omit_raw)
unfolding review_steps
review_steps-Bare [] file_lines omit_raw = tt
review_steps-Bare (f ∷ files) file_lines omit_raw =
    All-append (λ (t : Step). t.edges ≡ [])
      (map (hunk_step f.path (lines_of file_lines f.path) omit_raw) f.hunks)
      (review_steps files file_lines omit_raw)
      (hunk_steps-Bare f.path (lines_of file_lines f.path) omit_raw f.hunks)
      (review_steps-Bare files file_lines omit_raw)

pub Bare-get_elem? :
    (l : List Step) (i : ℕ) {s : Step} → Bare l → get_elem? l i ≡ some s → s.edges ≡ []
Bare-get_elem? [] i b e = cc
Bare-get_elem? (x ∷ l) zero (bx, b) e = ground arith
Bare-get_elem? (x ∷ l) (suc i) (bx, b) e = Bare-get_elem? l i b e

-- The graph of the files is the chain of their steps.
pub build_hunk_graph-IsChain :
    (files : List ReviewFile) (file_lines : Assoc (List Bytes)) (omit_raw : Bool)
    → Distinct (review_steps files file_lines omit_raw)
    → IsChain
        (build_hunk_graph files file_lines omit_raw).builder
        (review_steps files file_lines omit_raw)
unfolding build_hunk_graph
build_hunk_graph-IsChain files file_lines omit_raw d =
    let l = review_steps files file_lines omit_raw in
    subst (λ (b : Builder). IsChain b l)
      (sym (
        add_files-builder file_lines omit_raw
          (record { builder = empty_builder; file_entry_step_ids = [] }) files))
      (link_all-IsChain_all l d (review_steps-Named files file_lines omit_raw))

-- `n` calls of `Forward`.
unfoldable pub forwards : ℕ → Walker → Walker
forwards zero w = w
forwards (suc n) w = (forward (forwards n w)).0
