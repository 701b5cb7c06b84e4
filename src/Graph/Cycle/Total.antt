-- ===== src/Graph/Cycle/Total.antt =====
-- The search ends: a depth of one call for each step of the map, and one more, is enough.
use codewalker.Prelude.{
  ℕ, zero, suc, Bytes, Bool, true, false, List, [], ◌∷◌, Option, some, length, ◌≡◌, refl, arith,
  ◌≤◌, ◌<◌, if◌then◌else◌, ◌==◌, eq_iff, Bool-cases, inl, inr, Option-cases,
}
use codewalker.Prelude.Assoc.{Assoc, lookup, put}
use codewalker.Proto.{StepEdge}
use codewalker.Graph.{Graph, Step, step, len}
use codewalker.Graph.Cycle.{
  Search, new_search, is_set, enter, leave, close, follow, follow_all, dfs, search_from,
  detect_cycles,
}
use codewalker.Graph.Cycle.Edges.{is_set-put, Grows}

-- The entries of the map that are not visited.
abbrev unvisited : Assoc ℕ → Assoc Bool → ℕ
unvisited [] v = 0
unvisited ((id, p) ∷ m) v = if is_set v id then unvisited m v else suc (unvisited m v)

unvisited-le : (m : Assoc ℕ) (v w : Assoc Bool) → Grows v w → unvisited m w ≤ unvisited m v
unvisited-le [] v w h = omega arith
unvisited-le ((id, p) ∷ m) v w h = ground (arith, unvisited-le m v w h, h id)

Grows-put : (v : Assoc Bool) (id : Bytes) → Grows v (put id true v)
Grows-put v id j h = ground (arith, is_set-put v id j true)

unvisited-put :
    (m : Assoc ℕ) (v : Assoc Bool) (id : Bytes) {p : ℕ}
    → lookup id m ≡ some p
    → is_set v id ≡ false
    → unvisited m (put id true v) < unvisited m v
unfolding lookup
unvisited-put [] v id found fresh = cc
unvisited-put ((j, q) ∷ m) v id {p} found fresh = ground (
  arith,
  unvisited-put m v id {p = p},
  unvisited-le m v (put id true v) (Grows-put v id),
  is_set-put v id j true,
  eq_iff id j,
  eq_iff j id,
)

unvisited-length : (m : Assoc ℕ) (v : Assoc Bool) → unvisited m v ≤ length m
unvisited-length [] v = omega arith
unvisited-length ((id, p) ∷ m) v = ground (arith, unvisited-length m v)

pub step-found :
    (g : Graph) (id : Bytes) {s : Step}
    → step g id ≡ some s
    → (p : ℕ) × (lookup id g.steps ≡ some p)
unfolding step codewalker.Graph.step_ref
step-found g id {s} found = elim (Option-cases (lookup id g.steps)) [
  | inl e ↦ absurd (ground arith)
  | inr known ↦ known
]

-- A call that ends, and unmarks nothing.
abbrev Ends : Search → Option Search → Type 0
Ends st out = (next : Search) × (out ≡ some next) × Grows st.visited next.visited

-- The recursive call ends while fewer than `fuel` entries are left.
abbrev EndsBelow : Assoc ℕ → ℕ → (Bytes → Search → Option Search) → Type 0
EndsBelow m fuel visit =
    (id : Bytes) (st : Search)
    → unvisited m st.visited < fuel
    → is_set st.visited id ≡ false
    → Ends st (visit id st)

module _ (m : Assoc ℕ) (fuel : ℕ) (visit : Bytes → Search → Option Search)
    (ends : EndsBelow m fuel visit) where
  follow-Ends :
      (id : Bytes) (e : StepEdge) (st : Search)
      → unvisited m st.visited < fuel
      → Ends st (follow visit id e st)
  unfolding follow close
  follow-Ends id e st few = elim (Bool-cases (e.target_step_id == [])) [
    | inl empty ↦ (st, ground arith, λ x h. h)
    | inr full ↦ elim (Bool-cases (is_set st.visited e.target_step_id)) [
      | inl old ↦ (close id e st, ground arith, λ x h. ground arith)
      | inr new ↦
          let (next, same, grows) = ends e.target_step_id st few new in (next, ground arith, grows)
    ]
  ]

  follow_all-Ends :
      (id : Bytes) (edges : List StepEdge) (st : Search)
      → unvisited m st.visited < fuel
      → Ends st (follow_all visit id edges st)
  unfolding follow_all
  follow_all-Ends id [] st few = (st, refl, λ x h. h)
  follow_all-Ends id (e ∷ edges) st few =
      let (mid, one, grows) = follow-Ends id e st few in
      let fewer = unvisited-le m st.visited mid.visited grows in
      let (next, rest, more) = follow_all-Ends id edges mid (omega arith) in
      (next, rw (one, follow_all) rest, λ x h. more x (grows x h))

dfs-Ends : (g : Graph) (fuel : ℕ) → EndsBelow g.steps fuel (dfs g fuel)
unfolding dfs enter leave
dfs-Ends g zero id st few fresh = absurd (omega arith)
dfs-Ends g (suc fuel) id st few fresh = elim (Option-cases (step g id)) [
  | inl e ↦ (leave id (enter id st), ground arith, Grows-put st.visited id)
  | inr (s, e) ↦
      let (p, known) = step-found g id e in
      let less = unvisited-put g.steps st.visited id known fresh in
      let (next, all, grows) =
        follow_all-Ends g.steps fuel (dfs g fuel) (dfs-Ends g fuel) id s.edges (enter id st)
          (omega arith) in
      (leave id next, rw (e, all, dfs) refl, λ x h. grows x (Grows-put st.visited id x h))
]

search_from-Ends :
    (g : Graph) (fuel : ℕ) (m : Assoc ℕ) (st : Search)
    → length g.steps < fuel
    → (next : Search) × (search_from g fuel m st ≡ some next)
unfolding search_from
search_from-Ends g fuel [] st enough = (st, refl)
search_from-Ends g fuel ((id, p) ∷ m) st enough = elim (Bool-cases (is_set st.visited id)) [
  | inl old ↦ rw (old, search_from) (search_from-Ends g fuel m st enough)
  | inr new ↦
      let few = unvisited-length g.steps st.visited in
      let (mid, one, grows) = dfs-Ends g fuel id st (omega arith) new in
      rw (new, one, search_from) (search_from-Ends g fuel m mid enough)
]

-- The search ends, whatever the edges and the order of the map: recursion as deep as the number of
-- the map's steps and one more is enough.
pub detect_cycles-total :
    (g : Graph) (fuel : ℕ) → len g < fuel → (ids : List Bytes) × (detect_cycles g fuel ≡ some ids)
unfolding detect_cycles len
detect_cycles-total g fuel enough =
    let (next, all) = search_from-Ends g fuel g.steps new_search enough in
    (next.cyclic_ids, rw all refl)
