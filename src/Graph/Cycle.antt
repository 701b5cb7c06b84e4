-- ===== src/Graph/Cycle.antt =====
-- internal/graph/cycle.go: `DetectCycles`, a depth-first search from each step of the map. The
-- closure's variables are the record `Search`. The recursion is on fuel, which bounds its depth:
-- each nested call marks one more step of the map as visited before it looks at its edges.
pub mod Edges
pub mod Stack
pub mod Total
pub mod Sound
pub mod Clear
pub mod Complete
use codewalker.Prelude.{
  ℕ, zero, suc, Bytes, Bool, true, false, List, [], ◌∷◌, ◌++◌, Option, none, some, length, ◌==◌,
  ◌||◌, if◌then◌else◌,
}
use codewalker.Prelude.Assoc.{Assoc, lookup, put}
use codewalker.Proto.{StepEdge}
use codewalker.Graph.{Graph, Step, step}
use mathlib.Core.Option

pub record Search : Type 0 where
  pub visited : Assoc Bool
  pub in_stack : Assoc Bool
  pub cyclic_ids : List Bytes

abbrev pub new_search : Search
new_search = record { visited = []; in_stack = []; cyclic_ids = [] }

-- `m[id]` of a `map[string]bool`
unfoldable pub is_set : Assoc Bool → Bytes → Bool
unfolding lookup
is_set m id = elim (lookup id m) [ none ↦ false | some b ↦ b ]

unfoldable pub contains : List Bytes → Bytes → Bool
unfolding ◌==◌
contains [] s = false
contains (v ∷ slice) s = (v == s) || contains slice s

unfoldable pub record_id : List Bytes → Bytes → List Bytes
unfolding contains
record_id ids id = if contains ids id then ids else ids ++ id ∷ []

-- The marks at the start of a call, and its mark at the end.
unfoldable pub enter : Bytes → Search → Search
unfolding put
enter id st = record st { visited = put id true st.visited; in_stack = put id true st.in_stack }

unfoldable pub leave : Bytes → Search → Search
unfolding put
leave id st = record st { in_stack = put id false st.in_stack }

-- An edge to a step that was visited: a back edge if that step is on the stack.
unfoldable pub close : Bytes → StepEdge → Search → Search
unfolding is_set record_id
close id e st =
    if is_set st.in_stack e.target_step_id
    then record st { cyclic_ids = record_id (record_id st.cyclic_ids e.target_step_id) id }
    else st

-- One turn of the loop over the edges; `visit` is the recursive call.
unfoldable pub follow : (Bytes → Search → Option Search) → Bytes → StepEdge → Search → Option Search
unfolding ◌==◌ is_set close
follow visit id e st = elim (e.target_step_id == []) [
  | true ↦ some st
  | false ↦ elim (is_set st.visited e.target_step_id) [
    | true ↦ some (close id e st)
    | false ↦ visit e.target_step_id st
  ]
]

unfoldable pub follow_all :
    (Bytes → Search → Option Search) → Bytes → List StepEdge → Search → Option Search
unfolding follow
follow_all visit id [] st = some st
follow_all visit id (e ∷ edges) st = elim (follow visit id e st) [
  | none ↦ none
  | some next ↦ follow_all visit id edges next
]

unfoldable pub dfs : Graph → ℕ → Bytes → Search → Option Search
unfolding step enter leave follow_all
dfs g zero id st = none
dfs g (suc fuel) id st = elim (step g id) [
  | none ↦ some (leave id (enter id st))
  | some s ↦ Option.map (leave id) (follow_all (dfs g fuel) id s.edges (enter id st))
]

-- The loop over the map, whose order the program leaves open.
unfoldable pub search_from : Graph → ℕ → Assoc ℕ → Search → Option Search
unfolding is_set dfs
search_from g fuel [] st = some st
search_from g fuel ((id, p) ∷ rest) st = elim (is_set st.visited id) [
  | true ↦ search_from g fuel rest st
  | false ↦ elim (dfs g fuel id st) [ none ↦ none | some next ↦ search_from g fuel rest next ]
]

unfoldable pub detect_cycles : Graph → ℕ → Option (List Bytes)
unfolding search_from
detect_cycles g fuel =
    Option.map (λ (st : Search). st.cyclic_ids) (search_from g fuel g.steps new_search)
