-- ===== src/Tests/Graphs.antt =====
-- Runs of the cycle detection, and its theorems applied to a graph with a cycle and to one without.
use codewalker.Prelude.{
  ℕ, Bytes, bytes, List, [], ◌∷◌, Option, some, ◌≡◌, refl, ◌↔◌, All, arith, ◌<◌,
}
use codewalker.Graph.{Graph, add, new_graph, len}
use codewalker.Graph.Cycle.{detect_cycles}
use codewalker.Graph.Cycle.Edges.{OnCycle}
use codewalker.Graph.Cycle.Total.{detect_cycles-total}
use codewalker.Graph.Cycle.Sound.{detect_cycles-OnCycle}
use codewalker.Graph.Cycle.Complete.{detect_cycles-nil}
use codewalker.Review.{next_edge}
use codewalker.Tests.{two_steps, a_step}

-- Three steps in a circle.
abbrev circle : Graph
circle =
    add
      (add (add new_graph (a_step (bytes "c") (next_edge (bytes "a") ∷ [])))
        (a_step (bytes "b") (next_edge (bytes "c") ∷ [])))
      (a_step (bytes "a") (next_edge (bytes "b") ∷ []))

-- The search meets "c" with its edge back to "a"; "b" is on the cycle and is not recorded.
circle-detect_cycles : detect_cycles circle 4 ≡ some (bytes "a" ∷ bytes "c" ∷ [])
unfolding detect_cycles add codewalker.Graph.step_ref
circle-detect_cycles = refl

few : len two_steps < 3
unfolding len add codewalker.Prelude.◌==◌
few = omega arith

circle-few : len circle < 4
unfolding len add codewalker.Prelude.◌==◌
circle-few = omega arith

detect_cycles-total_example : (ids : List Bytes) × (detect_cycles circle 4 ≡ some ids)
detect_cycles-total_example = detect_cycles-total circle 4 circle-few

detect_cycles-OnCycle_example : All (OnCycle circle) (bytes "a" ∷ bytes "c" ∷ [])
detect_cycles-OnCycle_example =
    detect_cycles-OnCycle circle 4 (bytes "a" ∷ bytes "c" ∷ []) circle-detect_cycles

detect_cycles-nil_example :
    (detect_cycles two_steps 3 ≡ some []) ↔ ((x : Bytes) → ¬ OnCycle two_steps x)
detect_cycles-nil_example = detect_cycles-nil two_steps 3 few
