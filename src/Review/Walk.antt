-- ===== src/Review/Walk.antt =====
-- Walking a review: `Forward` from the entry visits the hunks in the order of the files.
use codewalker.Prelude.{
  ℕ, zero, suc, Bytes, Bool, List, [], ◌∷◌, ◌++◌, map, Option, none, some, length, get_elem?,
  get_elem?-lt, get_elem?-total, take, ◌≡◌, refl, sym, ap, ◌∙◌, arith, err,
}
use codewalker.Prelude.Assoc.{Assoc}
use codewalker.Proto.{EdgeLabel}
use codewalker.Forge.{ReviewFile}
use codewalker.Graph.{Step, step}
use codewalker.Graph.Shape.{unseen?}
use codewalker.Graph.Walker.{
  Walker, Outcome, new_walker, forward, follow_edge_label, go_to, no_edge,
}
use codewalker.Graph.Walker.Moves.{SameSteps, go_to-SameSteps}
use codewalker.Graph.Walker.Laws.{go_to_present}
use codewalker.Review.{Builder, build_hunk_graph, next_edge}
use codewalker.Review.Chain.{IsChain, IsChain-step, Distinct, linked, first_id}
use codewalker.Review.Traversal.{
  review_steps, forwards, build_hunk_graph-IsChain, review_steps-Bare, Bare, Bare-get_elem?,
}

abbrev pub ids : List Step → List Bytes
ids l = map (λ (s : Step). s.id) l

same-edges :
    (a : Step) (o : Option Step)
    → unseen? (some a) ≡ unseen? o
    → (d : Step) × (o ≡ some d) × (d.edges ≡ a.edges)
same-edges a none h = cc
same-edges a (some d) h = (d, refl, ground arith)

follow_only_edge :
    (w : Walker) (id : Bytes) (cur : Step)
    → step w.g w.current ≡ some cur
    → cur.edges ≡ next_edge id ∷ []
    → forward w ≡ go_to w id
unfolding forward follow_edge_label
follow_only_edge w id cur h e = rw (h, follow_edge_label) (rw e)

follow_no_edge :
    (w : Walker) (cur : Step)
    → step w.g w.current ≡ some cur
    → cur.edges ≡ []
    → forward w ≡ (w, err (no_edge EdgeLabel.next w.current))
unfolding forward follow_edge_label
follow_no_edge w cur h e = rw (h, follow_edge_label) (rw e refl)

take-suc :
    (l : List Step) (i : ℕ) {s : Step}
    → get_elem? l i ≡ some s
    → take (suc i) (ids l) ≡ take i (ids l) ++ s.id ∷ []
take-suc [] i h = cc
take-suc (x ∷ l) zero h = ground arith
take-suc (x ∷ l) (suc i) h = ap (◌∷◌ x.id) (take-suc l i h)

first_id-get_elem? : (l : List Step) {s : Step} → get_elem? l 0 ≡ some s → first_id l ≡ s.id
first_id-get_elem? [] h = cc
first_id-get_elem? (x ∷ l) h = ground arith

module _ {b : Builder} (l : List Step) (built : IsChain b l) (bare : Bare l) where
  -- Where the walker is after `i` calls.
  record IsAt (i : ℕ) (s : Step) (w : Walker) : Type 0 where
    current : w.current ≡ s.id
    breadcrumb : w.breadcrumb ≡ take i (ids l)
    same : SameSteps b.graph w.g

  step_forward :
      (i : ℕ) (s t : Step) (w : Walker)
      → get_elem? l i ≡ some s
      → get_elem? l (suc i) ≡ some t
      → IsAt i s w
      → IsAt (suc i) t (forward w).0
  step_forward i s t w hs ht at =
      let (cur, found, edges) = same-edges (linked s (some t)) (step w.g s.id) (
        ap unseen? (sym (IsChain-step l i built hs ∙ ap (λ o. some (linked s o)) ht))
        ∙ at.same.steps s.id) in
      let (tgt, t_found, _) =
        same-edges (linked t (get_elem? l (suc (suc i)))) (step w.g t.id)
          (ap unseen? (sym (IsChain-step l (suc i) built ht)) ∙ at.same.steps t.id) in
      let here : step w.g w.current ≡ some cur = rw at.current found in
      let only : cur.edges ≡ next_edge t.id ∷ [] =
        edges ∙ ap (λ es. es ++ next_edge t.id ∷ []) (Bare-get_elem? l i bare hs) in
      let moved = follow_only_edge w t.id cur here only in
      let gone = go_to_present w t.id here t_found in
      let kept = go_to-SameSteps w t.id in
      rw (moved, gone)
        (record {
          current = refl;
          breadcrumb = rw (at.current, at.breadcrumb) (sym (take-suc l i hs));
          same = record {
            steps = λ id.
                at.same.steps id
                ∙ kept.steps id
                ∙ ap (λ (o : Outcome). unseen? (step o.0.g id)) gone;
          };
        })

  IsAt-start : {s : Step} → get_elem? l 0 ≡ some s → IsAt 0 s (new_walker b.graph)
  IsAt-start {s} h = record {
    current = built.entry ∙ first_id-get_elem? l h;
    breadcrumb = refl;
    same = record { steps = λ id. refl };
  }

  walk : (i : ℕ) (s : Step) → get_elem? l i ≡ some s → IsAt i s (forwards i (new_walker b.graph))
  unfolding forwards
  walk zero s h = IsAt-start h
  walk (suc i) s h =
      let (r, before) = get_elem?-total l i (omega (arith, get_elem?-lt l (suc i) h)) in
      step_forward i r s (forwards i (new_walker b.graph)) before h (walk i r before)

  -- At the last step there is no edge to follow.
  walk_end :
      (i : ℕ) (s : Step) (w : Walker)
      → get_elem? l i ≡ some s
      → get_elem? l (suc i) ≡ none
      → IsAt i s w
      → forward w ≡ (w, err (no_edge EdgeLabel.next s.id))
  walk_end i s w hs last at =
      let (cur, found, edges) = same-edges (linked s none) (step w.g s.id) (
        ap unseen? (sym (IsChain-step l i built hs ∙ ap (λ o. some (linked s o)) last))
        ∙ at.same.steps s.id) in
      let here : step w.g w.current ≡ some cur = rw at.current found in
      follow_no_edge w cur here (edges ∙ Bare-get_elem? l i bare hs)
      ∙ ap (λ id. (w, err (no_edge EdgeLabel.next id))) at.current

-- In a review whose hunks have distinct IDs, `i` calls of `Forward` from the entry step lead to the
-- step of hunk `i`, in the order of the files and of the hunks in each; the breadcrumb then holds
-- the IDs of the steps before it, in order.
pub forwards-review_steps :
    (files : List ReviewFile) (file_lines : Assoc (List Bytes)) (omit_raw : Bool) (i : ℕ) {s : Step}
    → Distinct (review_steps files file_lines omit_raw)
    → get_elem? (review_steps files file_lines omit_raw) i ≡ some s
    → ((forwards i (new_walker (build_hunk_graph files file_lines omit_raw).builder.graph)).current
        ≡ s.id)
      × ((forwards i
            (new_walker (build_hunk_graph files file_lines omit_raw).builder.graph)).breadcrumb
          ≡ take i (ids (review_steps files file_lines omit_raw)))
forwards-review_steps files file_lines omit_raw i {s} d h =
    let l = review_steps files file_lines omit_raw in
    let at =
      walk l (build_hunk_graph-IsChain files file_lines omit_raw d)
        (review_steps-Bare files file_lines omit_raw) i s h in
    (at.current, at.breadcrumb)

-- In such a review, `Forward` at the last hunk fails, and leaves the walker there.
pub forward-at_last :
    (files : List ReviewFile) (file_lines : Assoc (List Bytes)) (omit_raw : Bool) (i : ℕ) {s : Step}
    → Distinct (review_steps files file_lines omit_raw)
    → get_elem? (review_steps files file_lines omit_raw) i ≡ some s
    → suc i ≡ length (review_steps files file_lines omit_raw)
    → let w = forwards i (new_walker (build_hunk_graph files file_lines omit_raw).builder.graph) in
      forward w ≡ (w, err (no_edge EdgeLabel.next s.id))
forward-at_last files file_lines omit_raw i {s} d h n =
    let l = review_steps files file_lines omit_raw in
    let built = build_hunk_graph-IsChain files file_lines omit_raw d in
    let bare = review_steps-Bare files file_lines omit_raw in
    walk_end l built bare i s
      (forwards i (new_walker (build_hunk_graph files file_lines omit_raw).builder.graph)) h
      (past_end l (suc i) n) (walk l built bare i s h)
  where
    past_end : (l : List Step) (j : ℕ) → j ≡ length l → get_elem? l j ≡ none
    past_end [] j n = refl
    past_end (x ∷ l) zero n = absurd (omega arith)
    past_end (x ∷ l) (suc j) n = past_end l j (omega arith)
