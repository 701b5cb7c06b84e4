-- ===== src/Graph/Cycle/Clear.antt =====
-- Steps from which every path ends.
use codewalker.Prelude.{
  ℕ, Bytes, List, [], ◌∷◌, none, some, ◌≡◌, ◌≢◌, sym, arith, ◌==◌, eq_iff, Bool-cases, inl, inr,
}
use codewalker.Prelude.Assoc.{Assoc, lookup}
use codewalker.Proto.{StepEdge}
use codewalker.Graph.{Graph, Step, step}
use codewalker.Graph.Cycle.Edges.{Among, first, later, Edge, here, there, snoc, OnCycle}
use mathlib.Core.WellFounded.{Acc}

-- Every path from the step ends.
abbrev pub Clear : Graph → Bytes → Type 0
Clear g = Acc (λ to from. Edge g from to)

-- A step on a cycle has a neighbour on it.
pub Clear-OnCycle : (g : Graph) (x : Bytes) → Clear g x → ¬ OnCycle g x
Clear-OnCycle g x (Acc.intro _ below) (y, edge, here) =
    Clear-OnCycle g y (below y edge) (y, edge, here)
Clear-OnCycle g x (Acc.intro _ below) (y, edge, there d r) =
    Clear-OnCycle g y (below y edge) (_, d, snoc r edge)

-- The targets of the edges of a list are clear.
abbrev pub ClearAt : Graph → List StepEdge → Type 0
ClearAt g edges = (e : StepEdge) → Among e edges → e.target_step_id ≢ [] → Clear g e.target_step_id

pub Among-nil : {e : StepEdge} → ¬ Among e []
Among-nil at = elim at [ ]

pub ClearAt-cons :
    (g : Graph) (e : StepEdge) (edges : List StepEdge)
    → (e.target_step_id ≢ [] → Clear g e.target_step_id)
    → ClearAt g edges
    → ClearAt g (e ∷ edges)
ClearAt-cons g e edges clear below _ first = clear
ClearAt-cons g e edges clear below d (later at) = below d at

-- A step is clear if the targets of its edges are; an ID that the graph does not know has none.
pub Clear-step :
    (g : Graph) (id : Bytes) {s : Step} → step g id ≡ some s → ClearAt g s.edges → Clear g id
Clear-step g id {s} found below = Acc.intro id (λ to edge.
    let (r, e, from, at, same, full) = edge in
    let one : r ≡ s = ground arith in rw (sym same) (below e (rw (sym one) at) (rw same full)))

pub Clear-unknown : (g : Graph) (id : Bytes) → step g id ≡ none → Clear g id
Clear-unknown g id lost =
    Acc.intro id (λ to edge. let (r, e, from, at, same, full) = edge in absurd (ground arith))

pub Clear-lookup :
    (g : Graph) (j : Bytes) (q : ℕ) (m : Assoc ℕ)
    → Clear g j
    → ((id : Bytes) (p : ℕ) → lookup id m ≡ some p → Clear g id)
    → (id : Bytes) (p : ℕ) → lookup id ((j, q) ∷ m) ≡ some p
    → Clear g id
unfolding lookup
Clear-lookup g j q m clear others id p known = elim (Bool-cases (j == id)) [
  | inl same ↦ rw (sym ((eq_iff j id).0 same)) clear
  | inr other ↦ others id p (ground arith)
]
