-- ===== src/Graph/Cycle/Edges.antt =====
-- What the search is about: the edges of the graph and the steps on a cycle.
use codewalker.Prelude.{
  Bytes, Bool, true, List, [], ◌∷◌, some, ◌≡◌, ◌≢◌, arith, if◌then◌else◌, ◌==◌, Bool-cases, inl,
  inr, All, All-append,
}
use codewalker.Prelude.Assoc.{Assoc, put, lookup-put}
use codewalker.Proto.{StepEdge}
use codewalker.Graph.{Graph, Step, step}
use codewalker.Graph.Cycle.{is_set, record_id}

-- Membership that says where the edge stands.
pub data Among (e : StepEdge) : List StepEdge → Type 0 where
  first : {edges : List StepEdge} → Among e (e ∷ edges)
  later : {d : StepEdge} {edges : List StepEdge} → Among e edges → Among e (d ∷ edges)

-- The step with ID `from` has an edge to `to`, which is not the empty ID.
abbrev pub Edge : Graph → Bytes → Bytes → Type 0
Edge g from to =
    (s : Step) × (e : StepEdge) × (step g from ≡ some s)
    × Among e s.edges
    × (e.target_step_id ≡ to)
    × (to ≢ [])

pub data Reaches (g : Graph) : Bytes → Bytes → Type 0 where
  here : {x : Bytes} → Reaches g x x
  there : {x y z : Bytes} → Edge g x y → Reaches g y z → Reaches g x z

pub snoc : {g : Graph} {x y z : Bytes} → Reaches g x y → Edge g y z → Reaches g x z
snoc here e = there e here
snoc (there d r) e = there d (snoc r e)

-- A step on a cycle: it has an edge to a step from which it is reached.
abbrev pub OnCycle : Graph → Bytes → Type 0
OnCycle g x = (y : Bytes) × Edge g x y × Reaches g y x

pub OnCycle-snoc : {g : Graph} {x y : Bytes} → Reaches g x y → Edge g y x → OnCycle g x
OnCycle-snoc here e = (_, e, here)
OnCycle-snoc (there d r) e = (_, d, snoc r e)

pub is_set-put :
    (m : Assoc Bool) (k j : Bytes) (b : Bool)
    → is_set (put k b m) j ≡ (if k == j then b else is_set m j)
unfolding is_set
is_set-put m k j b = ground (arith, lookup-put k j b m)

-- An ID is recorded once, so what holds of both holds of all.
pub All-record_id {κ} :
    (P : Bytes → Type κ) (ids : List Bytes) (id : Bytes)
    → All P ids
    → P id
    → All P (record_id ids id)
unfolding record_id
All-record_id P ids id h hx = elim (Bool-cases (codewalker.Graph.Cycle.contains ids id)) [
  | inl e ↦ rw e h
  | inr e ↦ rw e (All-append P ids (id ∷ []) h (hx, tt))
]

-- What is set in the one map is set in the other.
abbrev pub Grows : Assoc Bool → Assoc Bool → Type 0
Grows v w = (id : Bytes) → is_set v id ≡ true → is_set w id ≡ true
