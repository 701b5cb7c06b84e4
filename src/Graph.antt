-- ===== src/Graph.antt =====
-- internal/graph/walker.go: `Graph` and `Step`. Steps are objects that the map, the builder and the
-- walker share through pointers, so the graph carries the heap of the steps that were allocated: a
-- pointer is an index into it, and the map takes an ID to a pointer.
pub mod Shape
pub mod Walker
pub mod Builder
pub mod Cycle
use codewalker.Prelude.{
  ℕ, Bytes, Bool, true, false, List, [], ◌∷◌, ◌++◌, Option, none, some, length, get_elem?, modify,
}
use codewalker.Prelude.Assoc.{Assoc, lookup, put}
use codewalker.Proto.{StepKind, SourceSpan, HunkSpan, StepEdge}
use mathlib.Core.Option

pub record Step : Type 0 where
  pub id : Bytes
  pub label : Bytes
  pub kind : StepKind
  pub source : Option SourceSpan
  pub hunk_span : Option HunkSpan
  pub edges : List StepEdge
  pub visited : Bool

pub record Graph : Type 0 where
  pub steps : Assoc ℕ
  pub heap : List Step
  pub entry_id : Bytes

abbrev pub new_graph : Graph
new_graph = record { steps = []; heap = []; entry_id = [] }

-- `g.Add(s)` for a step that was just allocated: its pointer is the next free index. A step that
-- had the ID before stays on the heap, and the map forgets it.
unfoldable pub add : Graph → Step → Graph
unfolding put
add g s = record g { steps = put s.id (length g.heap) g.steps; heap = g.heap ++ s ∷ [] }

-- The pointer that `g.Step(id)` returns, and the object that it points to.
unfoldable pub step_ref : Graph → Bytes → Option ℕ
unfolding lookup
step_ref g id = lookup id g.steps

deref : Graph → Option ℕ → Option Step
deref g none = none
deref g (some p) = get_elem? g.heap p

unfoldable pub step : Graph → Bytes → Option Step
unfolding deref
step g id = deref g (step_ref g id)

steps_at : Graph → Assoc ℕ → List Step
unfolding deref
steps_at g [] = []
steps_at g ((id, p) ∷ rest) =
    let others = steps_at g rest in elim (deref g (some p)) [ none ↦ others | some s ↦ s ∷ others ]

-- `g.AllSteps()`, in an order that the program leaves open
unfoldable pub all_steps : Graph → List Step
unfolding steps_at
all_steps g = steps_at g g.steps

-- `g.Len()`
unfoldable pub len : Graph → ℕ
len g = length g.steps

-- `step.Edges = append(step.Edges, more...)` through a pointer
unfoldable pub append_edges : Graph → ℕ → List StepEdge → Graph
append_edges g p more = record g {
  heap = modify p (λ s. record s { edges = s.edges ++ more }) g.heap;
}

-- `step.Visited = true` through the pointer that the map holds for `id`
mark : Graph → Option ℕ → Graph
mark g none = g
mark g (some p) = record g { heap = modify p (λ s. record s { visited = true }) g.heap }

unfoldable pub mark_visited : Graph → Bytes → Graph
unfolding mark step_ref
mark_visited g id = mark g (step_ref g id)
