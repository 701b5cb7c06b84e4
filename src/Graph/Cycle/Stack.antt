-- ===== src/Graph/Cycle/Stack.antt =====
-- The marks of the stack: a call leaves none that it did not find.
use codewalker.Prelude.{
  ℕ, zero, suc, Bytes, true, false, List, [], ◌∷◌, Option, none, some, ◌≡◌, ◌≢◌, refl, arith, ◌==◌,
  eq_iff, Bool-cases, inl, inr, Option-cases, ◌⊎◌,
}
use codewalker.Prelude.Assoc.{Assoc}
use codewalker.Proto.{StepEdge}
use codewalker.Graph.{Graph, Step, step}
use codewalker.Graph.Cycle.{
  Search, new_search, is_set, enter, leave, close, follow, follow_all, dfs, search_from,
}
use codewalker.Graph.Cycle.Edges.{is_set-put, Grows}

-- What a call of the search does to the stack.
abbrev pub Shrinks : Search → Search → Type 0
Shrinks st next = Grows next.in_stack st.in_stack

enter-leave :
    (id x : Bytes) (st last : Search) {next : Search}
    → next ≡ leave id last
    → Shrinks (enter id st) last
    → is_set next.in_stack x ≡ true
    → is_set st.in_stack x ≡ true
unfolding enter leave
enter-leave id x st last {next} done h marked =
    ground (arith, is_set-put last.in_stack id x false, is_set-put st.in_stack id x true, h x)

-- What a turn of the loop may be: nothing at the empty ID, the record of a back edge, or a call.
pub follow-cases :
    (visit : Bytes → Search → Option Search) (id : Bytes) (e : StepEdge) (st : Search)
    {next : Search}
    → follow visit id e st ≡ some next
    → (next ≡ st) × (e.target_step_id ≡ [])
      ⊎ (e.target_step_id ≢ [])
        × ((is_set st.visited e.target_step_id ≡ true) × (next ≡ close id e st)
            ⊎ (is_set st.visited e.target_step_id ≡ false)
              × (visit e.target_step_id st ≡ some next))
unfolding follow
follow-cases visit id e st {next} run = elim (Bool-cases (e.target_step_id == [])) [
  | inl empty ↦ inl (ground arith, (eq_iff e.target_step_id []).0 empty)
  | inr full ↦ inr (
    λ eq. ground (arith, (eq_iff e.target_step_id []).1 eq),
    elim (Bool-cases (is_set st.visited e.target_step_id)) [
      | inl old ↦ inl (old, ground arith)
      | inr new ↦ inr (new, ground arith)
    ],
  )
]

pub follow-Shrinks :
    (visit : Bytes → Search → Option Search) (id : Bytes) (e : StepEdge) (st : Search)
    {next : Search}
    → ((to : Bytes) (out : Search) → visit to st ≡ some out → Shrinks st out)
    → follow visit id e st ≡ some next
    → Shrinks st next
unfolding close
follow-Shrinks visit id e st {next} shrinks run x marked = elim (follow-cases visit id e st run) [
  | inl (same, empty) ↦ ground arith
  | inr (full, inl (old, same)) ↦ ground arith
  | inr (full, inr (new, call)) ↦ shrinks e.target_step_id next call x marked
]

-- A turn of the loop and what follows it.
pub follow_all-some :
    (visit : Bytes → Search → Option Search) (id : Bytes) (e : StepEdge) (edges : List StepEdge)
    (st : Search) {next : Search}
    → follow_all visit id (e ∷ edges) st ≡ some next
    → (mid : Search) × (follow visit id e st ≡ some mid)
      × (follow_all visit id edges mid ≡ some next)
unfolding follow_all
follow_all-some visit id e edges st run = elim (Option-cases (follow visit id e st)) [
  | inl failed ↦ ground arith
  | inr (mid, one) ↦ (mid, one, ground arith)
]

pub follow_all-Shrinks :
    (visit : Bytes → Search → Option Search) (id : Bytes) (edges : List StepEdge) (st : Search)
    {next : Search}
    → ((to : Bytes) (from out : Search) → visit to from ≡ some out → Shrinks from out)
    → follow_all visit id edges st ≡ some next
    → Shrinks st next
unfolding follow_all
follow_all-Shrinks visit id [] st shrinks run x marked = ground arith
follow_all-Shrinks visit id (e ∷ edges) st shrinks run x marked =
    let (mid, one, rest) = follow_all-some visit id e edges st run in
    follow-Shrinks visit id e st (λ to. shrinks to st) one x
      (follow_all-Shrinks visit id edges mid shrinks rest x marked)

-- A call at a step of the graph is the loop over its edges between the two marks.
pub dfs-some :
    (g : Graph) (fuel : ℕ) (id : Bytes) (st : Search) {s : Step} {next : Search}
    → step g id ≡ some s
    → dfs g (suc fuel) id st ≡ some next
    → (last : Search) × (follow_all (dfs g fuel) id s.edges (enter id st) ≡ some last)
      × (next ≡ leave id last)
unfolding dfs
dfs-some g fuel id st {s} found run =
    elim (Option-cases (follow_all (dfs g fuel) id s.edges (enter id st))) [
      | inl failed ↦ ground arith
      | inr (last, all) ↦ (last, all, ground arith)
    ]

pub dfs-none :
    (g : Graph) (fuel : ℕ) (id : Bytes) (st : Search) {next : Search}
    → step g id ≡ none
    → dfs g (suc fuel) id st ≡ some next
    → next ≡ leave id (enter id st)
unfolding dfs
dfs-none g fuel id st lost run = ground arith

pub dfs-Shrinks :
    (g : Graph) (fuel : ℕ) (id : Bytes) (st : Search) {next : Search}
    → dfs g fuel id st ≡ some next
    → Shrinks st next
unfolding dfs
dfs-Shrinks g zero id st run x marked = cc
dfs-Shrinks g (suc fuel) id st run x marked = elim (Option-cases (step g id)) [
  | inl lost ↦ enter-leave id x st (enter id st) (dfs-none g fuel id st lost run) (λ y h. h) marked
  | inr (s, found) ↦
      let (last, all, done) = dfs-some g fuel id st found run in
      enter-leave id x st last done
        (follow_all-Shrinks (dfs g fuel) id s.edges (enter id st)
          (λ to from out. dfs-Shrinks g fuel to from) all)
        marked
]

-- Between the calls from the map's loop the stack is empty.
abbrev pub IsBare : Search → Type 0
IsBare st = (x : Bytes) → is_set st.in_stack x ≡ false

pub IsBare-new : IsBare new_search
unfolding is_set
IsBare-new x = refl

pub IsBare-dfs :
    (g : Graph) (fuel : ℕ) (id : Bytes) (st : Search) {next : Search}
    → IsBare st
    → dfs g fuel id st ≡ some next
    → IsBare next
IsBare-dfs g fuel id st {next} bare call x = ground (arith, dfs-Shrinks g fuel id st call x, bare x)

-- A turn of the map's loop and what follows it.
pub search_from-cases :
    (g : Graph) (fuel : ℕ) (id : Bytes) (p : ℕ) (m : Assoc ℕ) (st : Search) {next : Search}
    → search_from g fuel ((id, p) ∷ m) st ≡ some next
    → (is_set st.visited id ≡ true) × (search_from g fuel m st ≡ some next)
      ⊎ (is_set st.visited id ≡ false)
        × ((mid : Search) × (dfs g fuel id st ≡ some mid) × (search_from g fuel m mid ≡ some next))
unfolding search_from
search_from-cases g fuel id p m st {next} run = elim (Bool-cases (is_set st.visited id)) [
  | inl old ↦ inl (old, ground arith)
  | inr new ↦ elim (Option-cases (dfs g fuel id st)) [
    | inl failed ↦ absurd (ground arith)
    | inr (mid, call) ↦ inr (new, (mid, call, ground arith))
  ]
]
