-- ===== src/Graph/Walker/Moves.antt =====
-- Sequences of moves: what stays true of the walker, and of the graph that it shares.
use codewalker.Prelude.{
  ℕ, zero, suc, length, Bytes, List, [], ◌∷◌, ◌++◌, Option, none, some, err, ◌≡◌, refl, ap, ◌∙◌,
  sym, arith, inl, inr, Option-cases, get_last?-snoc, drop_last-snoc, All, All-append,
  All-drop_last, All-get_last?, get_last?,
}
use codewalker.Proto.{EdgeLabel}
use codewalker.Graph.{Graph, Step, step, mark_visited}
use codewalker.Graph.Shape.{unseen?, step-mark_visited}
use codewalker.Graph.Walker.{
  Walker, WalkError, Outcome, go_to, back, at_first_step, forward, follow_edge_label, first_edge,
  Move, ahead, back_up, to_step, along, make, make_all,
}
use codewalker.Graph.Walker.Laws.{go_to_present, go_to_missing}

-- The step is in the graph.
abbrev pub IsKnown : Graph → Bytes → Type 0
IsKnown g id = (s : Step) × (step g id ≡ some s)

-- Two graphs with the same steps, but for the visited flags.
pub record SameSteps (g h : Graph) : Type 0 where
  pub steps : (id : Bytes) → unseen? (step g id) ≡ unseen? (step h id)

-- Where a walker may stand: the current step and all that the breadcrumb names are in the graph.
pub record IsOnGraph (w : Walker) : Type 0 where
  pub current : IsKnown w.g w.current
  pub breadcrumb : All (IsKnown w.g) w.breadcrumb

known-unseen :
    (o o' : Option Step)
    → unseen? o' ≡ unseen? o
    → ((s : Step) × (o ≡ some s))
    → (s : Step) × (o' ≡ some s)
known-unseen (some s) (some t) e h = (t, refl)
known-unseen (some s) none e h = cc
known-unseen none o' e (s, h) = cc

IsKnown-mark_visited : (g : Graph) (id j : Bytes) → IsKnown g j → IsKnown (mark_visited g id) j
IsKnown-mark_visited g id j k =
    known-unseen (step g j) (step (mark_visited g id) j) (step-mark_visited g id j) k

All-IsKnown-mark_visited :
    (g : Graph) (id : Bytes) (ids : List Bytes)
    → All (IsKnown g) ids
    → All (IsKnown (mark_visited g id)) ids
All-IsKnown-mark_visited g id [] h = tt
All-IsKnown-mark_visited g id (j ∷ ids) (k, h) =
    (IsKnown-mark_visited g id j k, All-IsKnown-mark_visited g id ids h)

go_to-IsOnGraph : (w : Walker) (target : Bytes) → IsOnGraph w → IsOnGraph (go_to w target).0
go_to-IsOnGraph w target h = elim (Option-cases (step w.g target)) [
  | inl b ↦ rw (go_to_missing w target (inr b)).0 h
  | inr (t, b) ↦ rw (go_to_present w target h.current.1 b) (record {
    current = IsKnown-mark_visited w.g target target (t, b);
    breadcrumb =
        All-IsKnown-mark_visited w.g target (w.breadcrumb ++ w.current ∷ [])
          (All-append (IsKnown w.g) w.breadcrumb (w.current ∷ []) h.breadcrumb (h.current, tt));
  })
]

back-IsOnGraph : (w : Walker) → IsOnGraph w → IsOnGraph (back w).0
unfolding back
back-IsOnGraph w h = elim (Option-cases (get_last? w.breadcrumb)) [
  | inl e ↦ rw (e, back) h
  | inr (prev, e) ↦
      let k = All-get_last? (IsKnown w.g) w.breadcrumb h.breadcrumb e in
      rw (e, back, k.1)
        (record { current = k; breadcrumb = All-drop_last (IsKnown w.g) w.breadcrumb h.breadcrumb })
]

follow-IsOnGraph :
    (w : Walker) (label : EdgeLabel) → IsOnGraph w → IsOnGraph (follow_edge_label w label).0
unfolding follow_edge_label
follow-IsOnGraph w label h =
    let (cur, e) = h.current in
    rw (e, follow_edge_label)
      (elim (Option-cases (first_edge label cur.edges)) [
        | inl none_found ↦ rw (none_found, follow_edge_label) h
        | inr (edge, found) ↦
            rw (found, follow_edge_label) (go_to-IsOnGraph w edge.target_step_id h)
      ])

pub make-IsOnGraph : (w : Walker) (m : Move) → IsOnGraph w → IsOnGraph (make w m).0
unfolding make forward
make-IsOnGraph w ahead h = follow-IsOnGraph w EdgeLabel.next h
make-IsOnGraph w back_up h = back-IsOnGraph w h
make-IsOnGraph w (to_step id) h = go_to-IsOnGraph w id h
make-IsOnGraph w (along label) h = follow-IsOnGraph w label h

-- After any moves, failed ones included, a walker that stood on the graph stands on it.
pub make_all-IsOnGraph : (ms : List Move) (w : Walker) → IsOnGraph w → IsOnGraph (make_all w ms)
unfolding make_all
make_all-IsOnGraph [] w h = h
make_all-IsOnGraph (m ∷ ms) w h = make_all-IsOnGraph ms (make w m).0 (make-IsOnGraph w m h)

-- On the graph, the only failure of `Back` is that there is no step to go back to.
pub back-fails_at_first :
    (w : Walker) (e : WalkError)
    → IsOnGraph w
    → (back w).1 ≡ err e
    → (e ≡ at_first_step) × (w.breadcrumb ≡ [])
unfolding back
back-fails_at_first w e h failed = elim (Option-cases (get_last? w.breadcrumb)) [
  | inl no_last ↦ (ground arith, get_last?-nil w.breadcrumb no_last)
  | inr (prev, last) ↦
      let (s, found) = All-get_last? (IsKnown w.g) w.breadcrumb h.breadcrumb last in
      absurd (ground arith)
]
  where
    get_last?-nil : (l : List Bytes) → get_last? l ≡ none → l ≡ []
    get_last?-nil [] n = refl
    get_last?-nil (x ∷ []) n = cc
    get_last?-nil (x ∷ y ∷ l) n = cc (get_last?-nil (y ∷ l) n)

pub go_to-SameSteps : (w : Walker) (target : Bytes) → SameSteps w.g (go_to w target).0.g
go_to-SameSteps w target = elim (Option-cases (step w.g w.current)) [
  | inl a ↦ rw (go_to_missing w target (inl a)).0 (record { steps = λ id. refl })
  | inr (cur, a) ↦ elim (Option-cases (step w.g target)) [
    | inl b ↦ rw (go_to_missing w target (inr b)).0 (record { steps = λ id. refl })
    | inr (t, b) ↦
        rw (go_to_present w target a b)
          (record { steps = λ id. sym (step-mark_visited w.g target id) })
  ]
]

back-SameSteps : (w : Walker) → SameSteps w.g (back w).0.g
unfolding back
back-SameSteps w = record { steps = λ id. ground arith }

follow-SameSteps : (w : Walker) (label : EdgeLabel) → SameSteps w.g (follow_edge_label w label).0.g
unfolding follow_edge_label
follow-SameSteps w label = elim (Option-cases (step w.g w.current)) [
  | inl e ↦ rw (e, follow_edge_label) (record { steps = λ id. refl })
  | inr (cur, e) ↦
      rw (e, follow_edge_label)
        (elim (Option-cases (first_edge label cur.edges)) [
          | inl none_found ↦ rw (none_found, follow_edge_label) (record { steps = λ id. refl })
          | inr (edge, found) ↦
              rw (found, follow_edge_label) (go_to-SameSteps w edge.target_step_id)
        ])
]

make-SameSteps : (w : Walker) (m : Move) → SameSteps w.g (make w m).0.g
unfolding make forward
make-SameSteps w ahead = follow-SameSteps w EdgeLabel.next
make-SameSteps w back_up = back-SameSteps w
make-SameSteps w (to_step id) = go_to-SameSteps w id
make-SameSteps w (along label) = follow-SameSteps w label

-- No sequence of moves changes anything of a step but its visited flag.
pub make_all-SameSteps : (ms : List Move) (w : Walker) → SameSteps w.g (make_all w ms).g
unfolding make_all
make_all-SameSteps [] w = record { steps = λ id. refl }
make_all-SameSteps (m ∷ ms) w =
    let first = make-SameSteps w m in
    let rest = make_all-SameSteps ms (make w m).0 in
    record { steps = λ id. first.steps id ∙ rest.steps id }

unfoldable pub go_all : Walker → List Bytes → Walker
go_all w [] = w
go_all w (t ∷ ts) = go_all (go_to w t).0 ts

unfoldable pub back_times : ℕ → Walker → Walker
back_times zero w = w
back_times (suc n) w = (back (back_times n w)).0

back_onto :
    (w : Walker) (g : Graph) (target prev : Bytes)
    → IsKnown g prev
    → (back (record { g = g; current = target; breadcrumb = w.breadcrumb ++ prev ∷ [] })).0
      ≡ record { g = g; current = prev; breadcrumb = w.breadcrumb }
unfolding back
back_onto w g target prev (s, e) = rw (get_last?-snoc, drop_last-snoc, e)

-- As many `Back`s as there were `GoTo`s, all to steps of the graph, lead back to the start: to the
-- current step and the breadcrumb that the walker had.
pub back_times-go_all :
    (ts : List Bytes) (w : Walker)
    → IsKnown w.g w.current
    → All (IsKnown w.g) ts
    → (g : Graph) × (back_times (length ts) (go_all w ts) ≡ record w { g = g }) × SameSteps w.g g
unfolding back_times go_all
back_times-go_all [] w k h = (w.g, refl, record { steps = λ id. refl })
back_times-go_all (t ∷ ts) w k (kt, h) =
    let e = ap (λ (o : Outcome). o.0) (go_to_present w t k.1 kt.1) in
    let (g, undone, same) =
      back_times-go_all ts
        (record {
          g = mark_visited w.g t;
          current = t;
          breadcrumb = w.breadcrumb ++ w.current ∷ [];
        })
        (IsKnown-mark_visited w.g t t kt) (All-IsKnown-mark_visited w.g t ts h) in
    let back_to_w : (id : Bytes) → unseen? (step w.g id) ≡ unseen? (step g id) =
      λ id. sym (step-mark_visited w.g t id) ∙ same.steps id in
    (
      g,
      ap (λ (x : Walker). (back (back_times (length ts) (go_all x ts))).0) e
          ∙ ap (λ (x : Walker). (back x).0) undone
          ∙ back_onto w g t w.current
              (known-unseen (step w.g w.current) (step g w.current) (sym (back_to_w w.current)) k),
      record { steps = back_to_w },
    )
