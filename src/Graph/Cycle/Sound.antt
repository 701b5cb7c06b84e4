-- ===== src/Graph/Cycle/Sound.antt =====
-- What the search records: steps on a cycle only.
use codewalker.Prelude.{
  ℕ, zero, suc, Bytes, true, List, [], ◌∷◌, Option, some, ◌≡◌, refl, All, arith, ◌==◌, eq_iff,
  Bool-cases, inl, inr, Option-cases,
}
use codewalker.Prelude.Assoc.{Assoc}
use codewalker.Proto.{StepEdge}
use codewalker.Graph.{Graph, Step, step}
use codewalker.Graph.Cycle.{
  Search, new_search, is_set, record_id, enter, close, follow, follow_all, dfs, search_from,
  detect_cycles,
}
use codewalker.Graph.Cycle.Edges.{
  Among, first, later, Edge, Reaches, here, snoc, OnCycle, OnCycle-snoc, is_set-put, All-record_id,
}
use codewalker.Graph.Cycle.Stack.{
  Shrinks, follow_all-some, dfs-some, dfs-none, dfs-Shrinks, follow-Shrinks, follow-cases,
  search_from-cases, IsBare, IsBare-dfs, IsBare-new,
}

-- Every step on the stack reaches the step of the call.
abbrev OnTop : Graph → Search → Bytes → Type 0
OnTop g st id = (x : Bytes) → is_set st.in_stack x ≡ true → Reaches g x id

-- A call that starts with the stack above its step records steps on a cycle.
abbrev Sound : Graph → (Bytes → Search → Option Search) → Type 0
Sound g visit =
    (id : Bytes) (st next : Search)
    → OnTop g st id
    → All (OnCycle g) st.cyclic_ids
    → visit id st ≡ some next
    → All (OnCycle g) next.cyclic_ids

OnTop-enter : (g : Graph) (id : Bytes) (st : Search) → OnTop g st id → OnTop g (enter id st) id
unfolding enter
OnTop-enter g id st top x marked = elim (Bool-cases (id == x)) [
  | inl same ↦ rw ((eq_iff id x).0 same) here
  | inr other ↦ top x (ground (arith, is_set-put st.in_stack id x true))
]

close-OnCycle :
    (g : Graph) (id : Bytes) (e : StepEdge) (st : Search)
    → Edge g id e.target_step_id
    → OnTop g st id
    → All (OnCycle g) st.cyclic_ids
    → All (OnCycle g) (close id e st).cyclic_ids
unfolding close
close-OnCycle g id e st edge top sound = elim (Bool-cases (is_set st.in_stack e.target_step_id)) [
  | inl marked ↦
      let back = top e.target_step_id marked in
      rw marked (
        All-record_id (OnCycle g) (record_id st.cyclic_ids e.target_step_id) id
          (All-record_id (OnCycle g) st.cyclic_ids e.target_step_id sound (OnCycle-snoc back edge))
          (_, edge, back))
  | inr free ↦ rw free sound
]

module _ (g : Graph) (visit : Bytes → Search → Option Search) (visits : Sound g visit) (id : Bytes)
    {s : Step} (found : step g id ≡ some s) where
  follow-OnCycle :
      (e : StepEdge) (st : Search) {next : Search}
      → Among e s.edges
      → OnTop g st id
      → All (OnCycle g) st.cyclic_ids
      → follow visit id e st ≡ some next
      → All (OnCycle g) next.cyclic_ids
  follow-OnCycle e st {next} at top sound run = elim (follow-cases visit id e st run) [
    | inl (same, empty) ↦ rw same sound
    | inr (full, inl (old, same)) ↦
        rw same (close-OnCycle g id e st (s, e, found, at, refl, full) top sound)
    | inr (full, inr (new, call)) ↦
        visits e.target_step_id st next (λ x h. snoc (top x h) (s, e, found, at, refl, full)) sound
          call
  ]

  follow_all-OnCycle :
      (edges : List StepEdge) (st : Search) {next : Search}
      → ((e : StepEdge) → Among e edges → Among e s.edges)
      → ((to : Bytes) (from out : Search) → visit to from ≡ some out → Shrinks from out)
      → OnTop g st id
      → All (OnCycle g) st.cyclic_ids
      → follow_all visit id edges st ≡ some next
      → All (OnCycle g) next.cyclic_ids
  unfolding follow_all
  follow_all-OnCycle [] st {next} at shrinks top sound run =
      let same : next ≡ st = ground arith in rw same sound
  follow_all-OnCycle (e ∷ edges) st {next} at shrinks top sound run =
      let (mid, one, rest) = follow_all-some visit id e edges st run in
      let less = follow-Shrinks visit id e st (λ to. shrinks to st) one in
      follow_all-OnCycle edges mid (λ d h. at d (later h)) shrinks (λ x h. top x (less x h))
        (follow-OnCycle e st (at e first) top sound one) rest

dfs-Sound : (g : Graph) (fuel : ℕ) → Sound g (dfs g fuel)
unfolding dfs
dfs-Sound g zero id st next top sound run = cc
dfs-Sound g (suc fuel) id st next top sound run = elim (Option-cases (step g id)) [
  | inl lost ↦ rw (dfs-none g fuel id st lost run) sound
  | inr (s, found) ↦
      let (last, all, done) = dfs-some g fuel id st found run in
      rw done (
        follow_all-OnCycle g (dfs g fuel) (dfs-Sound g fuel) id found s.edges (enter id st)
          (λ e h. h) (λ to from out. dfs-Shrinks g fuel to from) (OnTop-enter g id st top) sound
          all)
]

search_from-Sound :
    (g : Graph) (fuel : ℕ) (m : Assoc ℕ) (st : Search) {next : Search}
    → IsBare st
    → All (OnCycle g) st.cyclic_ids
    → search_from g fuel m st ≡ some next
    → All (OnCycle g) next.cyclic_ids
unfolding search_from
search_from-Sound g fuel [] st {next} bare sound run =
    let same : next ≡ st = ground arith in rw same sound
search_from-Sound g fuel ((id, p) ∷ m) st {next} bare sound run =
    elim (search_from-cases g fuel id p m st run) [
      | inl (old, rest) ↦ search_from-Sound g fuel m st bare sound rest
      | inr (new, (mid, call, rest)) ↦
          search_from-Sound g fuel m mid (IsBare-dfs g fuel id st bare call)
            (dfs-Sound g fuel id st mid (λ x h. absurd (ground (arith, bare x))) sound call) rest
    ]

-- Every ID that the search records is the ID of a step on a cycle: edges lead from it back to it.
pub detect_cycles-OnCycle :
    (g : Graph) (fuel : ℕ) (ids : List Bytes)
    → detect_cycles g fuel ≡ some ids
    → All (OnCycle g) ids
unfolding detect_cycles
detect_cycles-OnCycle g fuel ids run = elim (Option-cases (search_from g fuel g.steps new_search)) [
  | inl failed ↦ absurd (ground arith)
  | inr (last, all) ↦
      let same : ids ≡ last.cyclic_ids = ground arith in
      rw same (search_from-Sound g fuel g.steps new_search IsBare-new tt all)
]
