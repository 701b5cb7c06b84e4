-- ===== src/Graph/Walker/Laws.antt =====
-- What one operation of the walker does.
use codewalker.Prelude.{
  Bytes, true, [], ◌∷◌, ◌++◌, Option, none, some, ok, ◌≡◌, ◌≢◌, refl, ap, ◌∙◌, sym, arith, ◌⊎◌, ◌↔◌,
  inl, inr, Option-cases, get_last?-snoc, drop_last-snoc,
}
use codewalker.Graph.{Step, step, mark_visited}
use codewalker.Graph.Shape.{unseen?, step-mark_visited}
use codewalker.Graph.Walker.{Walker, Outcome, go_to, back}

-- `GoTo` to a step of the graph, from a step of the graph, whatever the edges: the walker stands on
-- the target, which is marked, and the breadcrumb ends with the step that was left.
pub go_to_present :
    (w : Walker) (target : Bytes) {cur s : Step}
    → step w.g w.current ≡ some cur
    → step w.g target ≡ some s
    → go_to w target ≡ (
      record {
        g = mark_visited w.g target;
        current = target;
        breadcrumb = w.breadcrumb ++ w.current ∷ [];
      },
      ok (record s { visited = true }),
    )
unfolding go_to
go_to_present w target hc ht = ground arith

-- `GoTo` where the current step or the target is missing fails, and moves nothing.
pub go_to_missing :
    (w : Walker) (target : Bytes)
    → (step w.g w.current ≡ none) ⊎ (step w.g target ≡ none)
    → ((go_to w target).0 ≡ w) × ((s : Step) → (go_to w target).1 ≢ ok s)
unfolding go_to
go_to_missing w target (inl h) = (ground arith, λ s e. ground arith)
go_to_missing w target (inr h) = (ground arith, λ s e. ground arith)

-- A successful `GoTo` had both steps.
pub go_to_ok :
    (w : Walker) (target : Bytes) {s : Step}
    → (go_to w target).1 ≡ ok s
    → (cur : Step) × (t : Step) × (step w.g w.current ≡ some cur) × (step w.g target ≡ some t)
go_to_ok w target {s} h = elim (Option-cases (step w.g w.current)) [
  | inl a ↦ absurd ((go_to_missing w target (inl a)).1 s h)
  | inr (cur, a) ↦ elim (Option-cases (step w.g target)) [
    | inl b ↦ absurd ((go_to_missing w target (inr b)).1 s h)
    | inr (t, b) ↦ (cur, t, a, b)
  ]
]

-- `GoTo` succeeds exactly when the graph has the current step and the target: no edge between them
-- is needed.
pub go_to_iff :
    (w : Walker) (target : Bytes)
    → ((s : Step) × ((go_to w target).1 ≡ ok s))
      ↔ ((cur : Step) × (t : Step) × (step w.g w.current ≡ some cur) × (step w.g target ≡ some t))
go_to_iff w target = (
  λ r. go_to_ok w target r.1,
  λ r. (record r.1 { visited = true }, ap (λ (o : Outcome). o.1) (go_to_present w target r.2 r.3)),
)

unseen?-some :
    (o : Option Step) (c : Step)
    → unseen? o ≡ unseen? (some c)
    → (d : Step) × (o ≡ some d) × (unseen? (some d) ≡ unseen? (some c))
unseen?-some none c h = cc
unseen?-some (some d) c h = (d, refl, h)

-- `Back` after a successful `GoTo` stands where the walker stood, with the breadcrumb that it had;
-- it returns the step that was left, which may have been marked since.
pub back-go_to :
    (w : Walker) (target : Bytes) {s : Step}
    → (go_to w target).1 ≡ ok s
    → (c : Step) × (back (go_to w target).0 ≡ (record w { g = (go_to w target).0.g }, ok c))
      × (unseen? (some c) ≡ unseen? (step w.g w.current))
back-go_to w target h =
    let (cur, t, hc, ht) = go_to_ok w target h in
    let e = go_to_present w target hc ht in
    let (c, at, same) =
      unseen?-some (step (mark_visited w.g target) w.current) cur
        (step-mark_visited w.g target w.current ∙ ap unseen? hc) in
    (c, rw e (unfold back in rw (get_last?-snoc, drop_last-snoc, at)), same ∙ sym (ap unseen? hc))
