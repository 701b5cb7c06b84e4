-- ===== src/Graph/Cycle/Complete.antt =====
-- Where the search records nothing, no step is on a cycle: a step that was left behind leads, along
-- its edges, only to steps that were left behind before it.
use codewalker.Prelude.{
  ℕ, zero, suc, Bytes, true, false, List, [], ◌∷◌, Option, some, ◌≡◌, ◌≢◌, refl, sym, All, ap,
  arith, ◌<◌, ◌==◌, eq_iff, Bool-cases, inl, inr, Option-cases, ◌⊎◌, ◌↔◌,
}
use codewalker.Prelude.Assoc.{Assoc, lookup}
use codewalker.Proto.{StepEdge}
use codewalker.Graph.{Graph, Step, step, len}
use codewalker.Graph.Cycle.{
  Search, new_search, is_set, record_id, enter, leave, close, follow, follow_all, dfs, search_from,
  detect_cycles,
}
use codewalker.Graph.Cycle.Edges.{OnCycle, is_set-put}
use codewalker.Graph.Cycle.Stack.{
  follow_all-some, dfs-some, dfs-none, follow-cases, search_from-cases, IsBare, IsBare-dfs,
  IsBare-new,
}
use codewalker.Graph.Cycle.Total.{detect_cycles-total, step-found}
use codewalker.Graph.Cycle.Sound.{detect_cycles-OnCycle}
use codewalker.Graph.Cycle.Clear.{
  Clear, Clear-OnCycle, ClearAt, Among-nil, ClearAt-cons, Clear-step, Clear-unknown, Clear-lookup,
}

-- Nothing is recorded.
abbrev IsClean : Search → Type 0
IsClean st = st.cyclic_ids ≡ []

-- What is visited is on the stack or clear, if nothing is recorded.
abbrev Settled : Graph → Search → Type 0
Settled g st =
    IsClean st
    → (x : Bytes) → is_set st.visited x ≡ true
    → (is_set st.in_stack x ≡ true) ⊎ Clear g x

-- A call that ends with nothing recorded leaves its step clear, and had found nothing recorded.
abbrev Settles : Graph → (Bytes → Search → Option Search) → Type 0
Settles g visit =
    (id : Bytes) (st next : Search)
    → Settled g st
    → visit id st ≡ some next
    → (IsClean next → IsClean st) × Settled g next × (IsClean next → Clear g id)

record_id-cons : (ids : List Bytes) (id : Bytes) → record_id ids id ≢ []
unfolding record_id codewalker.Graph.Cycle.contains
record_id-cons [] id eq = cc
record_id-cons (x ∷ ids) id eq = ground arith

module _ (g : Graph) (visit : Bytes → Search → Option Search) (settles : Settles g visit)
    (id : Bytes) {s : Step} (found : step g id ≡ some s) where
  follow-Settled :
      (e : StepEdge) (st : Search) {next : Search}
      → Settled g st
      → follow visit id e st ≡ some next
      → (IsClean next → IsClean st)
        × Settled g next
        × (IsClean next → e.target_step_id ≢ [] → Clear g e.target_step_id)
  unfolding close
  follow-Settled e st {next} settled run = elim (follow-cases visit id e st run) [
    | inl (same, empty) ↦ (λ c. ground arith, rw same settled, λ c full. absurd (full empty))
    | inr (full, inl (old, same)) ↦ elim (Bool-cases (is_set st.in_stack e.target_step_id)) [
      | inl marked ↦
          let dirty : IsClean next → ⊥ =
            λ c. record_id-cons (record_id st.cyclic_ids e.target_step_id) id (ground arith) in
          (λ c. absurd (dirty c), λ c. absurd (dirty c), λ c. absurd (dirty c))
      | inr gone ↦
          let kept : next ≡ st = ground arith in
          (
            λ c. ground arith,
            rw kept settled,
            λ c full. elim (settled (ground arith) e.target_step_id old) [
              | inl marked ↦ absurd (ground arith)
              | inr clear ↦ clear
            ],
          )
    ]
    | inr (full, inr (new, call)) ↦
        let (before, after, clear) = settles e.target_step_id st next settled call in
        (before, after, λ c _. clear c)
  ]

  follow_all-Settled :
      (edges : List StepEdge) (st : Search) {next : Search}
      → Settled g st
      → follow_all visit id edges st ≡ some next
      → (IsClean next → IsClean st) × Settled g next × (IsClean next → ClearAt g edges)
  unfolding follow_all
  follow_all-Settled [] st {next} settled run =
      let same : next ≡ st = ground arith in
      (λ c. ground arith, rw same settled, λ c e at. absurd (Among-nil at))
  follow_all-Settled (e ∷ edges) st {next} settled run =
      let (mid, one, rest) = follow_all-some visit id e edges st run in
      let (before, between, clear) = follow-Settled e st settled one in
      let (behind, after, below) = follow_all-Settled edges mid between rest in
      (
        λ c. before (behind c),
        after,
        λ c d at. ClearAt-cons g e edges (clear (behind c)) (below c) d at,
      )

Settled-enter : (g : Graph) (id : Bytes) (st : Search) → Settled g st → Settled g (enter id st)
unfolding enter
Settled-enter g id st settled c x old = elim (Bool-cases (id == x)) [
  | inl same ↦ inl (ground (arith, is_set-put st.in_stack id x true))
  | inr other ↦ elim (settled c x (ground (arith, is_set-put st.visited id x true))) [
    | inl marked ↦ inl (ground (arith, is_set-put st.in_stack id x true))
    | inr clear ↦ inr clear
  ]
]

Settled-leave :
    (g : Graph) (id : Bytes) (st : Search)
    → (IsClean st → Clear g id)
    → Settled g st
    → Settled g (leave id st)
unfolding leave
Settled-leave g id st done settled c x old = elim (settled c x old) [
  | inr clear ↦ inr clear
  | inl marked ↦ elim (Bool-cases (id == x)) [
    | inl same ↦ inr (rw (sym ((eq_iff id x).0 same)) (done c))
    | inr other ↦ inl (ground (arith, is_set-put st.in_stack id x false))
  ]
]

-- The end of a call, at what its loop left.
Settles-leave :
    (g : Graph) (id : Bytes) (st last : Search) {next : Search}
    → next ≡ leave id last
    → (IsClean last → IsClean (enter id st))
    → (IsClean last → Clear g id)
    → Settled g last
    → (IsClean next → IsClean st) × Settled g next × (IsClean next → Clear g id)
unfolding enter leave
Settles-leave g id st last done before clear after =
    (rw done before, rw done (Settled-leave g id last clear after), rw done clear)

dfs-Settles : (g : Graph) (fuel : ℕ) → Settles g (dfs g fuel)
unfolding dfs
dfs-Settles g zero id st next settled run = cc
dfs-Settles g (suc fuel) id st next settled run = elim (Option-cases (step g id)) [
  | inl lost ↦
      let clear = Clear-unknown g id lost in
      Settles-leave g id st (enter id st) (dfs-none g fuel id st lost run) (λ c. c) (λ c. clear)
        (Settled-enter g id st settled)
  | inr (s, found) ↦
      let (last, all, done) = dfs-some g fuel id st found run in
      let (before, after, below) =
        follow_all-Settled g (dfs g fuel) (dfs-Settles g fuel) id found s.edges (enter id st)
          (Settled-enter g id st settled) all in
      Settles-leave g id st last done before (λ c. Clear-step g id found (below c)) after
]

search_from-Clear :
    (g : Graph) (fuel : ℕ) (m : Assoc ℕ) (st : Search) {next : Search}
    → IsBare st
    → Settled g st
    → search_from g fuel m st ≡ some next
    → (IsClean next → IsClean st)
      × (IsClean next → (id : Bytes) (p : ℕ) → lookup id m ≡ some p → Clear g id)
unfolding search_from lookup
search_from-Clear g fuel [] st {next} bare settled run =
    (λ c. ground arith, λ c id p known. absurd (ground arith))
search_from-Clear g fuel ((j, q) ∷ m) st {next} bare settled run =
    elim (search_from-cases g fuel j q m st run) [
      | inl (old, rest) ↦
          let (before, clear) = search_from-Clear g fuel m st bare settled rest in
          let clear_j : IsClean st → Clear g j = λ c. elim (settled c j old) [
            | inl marked ↦ absurd (ground (arith, bare j))
            | inr done ↦ done
          ] in
          (before, λ c. Clear-lookup g j q m (clear_j (before c)) (clear c))
      | inr (new, (mid, call, rest)) ↦
          let (one, between, done) = dfs-Settles g fuel j st mid settled call in
          let (before, clear) =
            search_from-Clear g fuel m mid (IsBare-dfs g fuel j st bare call) between rest in
          (λ c. one (before c), λ c. Clear-lookup g j q m (done (before c)) (clear c))
    ]

detect_cycles-Clear :
    (g : Graph) (fuel : ℕ) → detect_cycles g fuel ≡ some [] → (x : Bytes) → Clear g x
unfolding detect_cycles
detect_cycles-Clear g fuel run x = elim (Option-cases (search_from g fuel g.steps new_search)) [
  | inl failed ↦ absurd (ground arith)
  | inr (last, all) ↦
      let clean : IsClean last = ground arith in
      let settled : Settled g new_search = λ c y old. absurd (ground (arith, IsBare-new y)) in
      let clear = (search_from-Clear g fuel g.steps new_search IsBare-new settled all).1 clean in
      elim (Option-cases (step g x)) [
        | inl lost ↦ Clear-unknown g x lost
        | inr (s, found) ↦ let (p, known) = step-found g x found in clear x p known
      ]
]

nothing_on :
    (g : Graph)
    → ((x : Bytes) → ¬ OnCycle g x)
    → (ids : List Bytes) → All (OnCycle g) ids
    → ids ≡ []
nothing_on g acyclic [] h = refl
nothing_on g acyclic (x ∷ ids) (on, h) = absurd (acyclic x on)

-- With a fuel above the number of the map's steps, the search records nothing exactly if the graph
-- has no cycle.
pub detect_cycles-nil :
    (g : Graph) (fuel : ℕ)
    → len g < fuel
    → (detect_cycles g fuel ≡ some []) ↔ ((x : Bytes) → ¬ OnCycle g x)
detect_cycles-nil g fuel enough = (
  λ none_found x. Clear-OnCycle g x (detect_cycles-Clear g fuel none_found x),
  λ acyclic.
      let (ids, run) = detect_cycles-total g fuel enough in
      rw run (ap some (nothing_on g acyclic ids (detect_cycles-OnCycle g fuel ids run))),
)
