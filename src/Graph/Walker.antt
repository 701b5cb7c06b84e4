-- ===== src/Graph/Walker.antt =====
-- internal/graph/walker.go: the walker. An operation returns the walker that it leaves behind beside
-- its result, since `Back` moves before it can fail.
pub mod Laws
pub mod Moves
use codewalker.Prelude.{
  ℕ, Bytes, Bool, true, false, List, [], ◌∷◌, ◌++◌, Option, none, some, Result, ok, err, ◌==◌, ◌&&◌,
  ◌||◌, if◌then◌else◌, get_last?, drop_last,
}
use codewalker.Proto.{StepEdge, EdgeLabel, EdgeLabel-discrete}
use codewalker.Graph.{Graph, Step, step, step_ref, mark_visited}
use mathlib.Core.Bool.{decide}
use mathlib.Core.Option

pub record Walker : Type 0 where
  pub g : Graph
  pub current : Bytes
  pub breadcrumb : List Bytes

pub data WalkError : Type 0 where
  current_not_found : Bytes → WalkError
  not_reachable : Bytes → Bytes → WalkError
  target_not_found : Bytes → WalkError
  at_first_step : WalkError
  step_not_found : Bytes → WalkError
  no_edge : EdgeLabel → Bytes → WalkError

abbrev pub Outcome : Type 0
Outcome = Walker × Result WalkError Step

abbrev pub new_walker : Graph → Walker
new_walker g = record { g = g; current = g.entry_id; breadcrumb = [] }

unfoldable pub current_step : Walker → Option Step
current_step w = step w.g w.current

-- The loop of `GoTo` over the edges of the current step.
has_edge_to : Bytes → List StepEdge → Bool
has_edge_to target [] = false
has_edge_to target (e ∷ es) = (e.target_step_id == target && e.navigable) || has_edge_to target es

is_some {ℓ} : {A : Type ℓ} → Option A → Bool
is_some none = false
is_some (some a) = true

-- The second lookup of the target, and the three writes.
arrive : Walker → Bytes → Option Step → Outcome
unfolding mark_visited
arrive w target none = (w, err (target_not_found target))
arrive w target (some s) = (
  record {
    g = mark_visited w.g target;
    current = target;
    breadcrumb = w.breadcrumb ++ w.current ∷ [];
  },
  ok (record s { visited = true }),
)

go_to_from : Walker → Bytes → Option Step → Outcome
unfolding arrive has_edge_to is_some step
go_to_from w target none = (w, err (current_not_found w.current))
go_to_from w target (some cur) =
    let found = has_edge_to target cur.edges in
    if found || is_some (step w.g target)
    then arrive w target (step w.g target)
    else (w, err (not_reachable target w.current))

unfoldable pub go_to : Walker → Bytes → Outcome
unfolding go_to_from
go_to w target = go_to_from w target (step w.g w.current)

arrive_back : Walker → Bytes → Option Step → Outcome
arrive_back w prev none = (w, err (step_not_found prev))
arrive_back w prev (some s) = (w, ok s)

back_to : Walker → Option Bytes → Outcome
unfolding arrive_back step
back_to w none = (w, err at_first_step)
back_to w (some prev) =
    arrive_back (record w { current = prev; breadcrumb = drop_last w.breadcrumb }) prev
      (step w.g prev)

unfoldable pub back : Walker → Outcome
unfolding back_to
back w = back_to w (get_last? w.breadcrumb)

-- The first navigable edge with the label.
unfoldable pub first_edge : EdgeLabel → List StepEdge → Option StepEdge
unfolding EdgeLabel-discrete decide
first_edge label [] = none
first_edge label (e ∷ es) =
    if decide (EdgeLabel-discrete e.label label) && e.navigable then some e else first_edge label es

follow : Walker → EdgeLabel → Option StepEdge → Outcome
follow w label none = (w, err (no_edge label w.current))
follow w label (some e) = go_to w e.target_step_id

follow_from : Walker → EdgeLabel → Option Step → Outcome
unfolding follow first_edge
follow_from w label none = (w, err (current_not_found w.current))
follow_from w label (some cur) = follow w label (first_edge label cur.edges)

unfoldable pub follow_edge_label : Walker → EdgeLabel → Outcome
unfolding follow_from
follow_edge_label w label = follow_from w label (step w.g w.current)

unfoldable pub forward : Walker → Outcome
forward w = follow_edge_label w EdgeLabel.next

navigable_only : List StepEdge → List StepEdge
navigable_only [] = []
navigable_only (e ∷ es) = if e.navigable then e ∷ navigable_only es else navigable_only es

edges_from : Option Step → List StepEdge
unfolding navigable_only
edges_from none = []
edges_from (some cur) = navigable_only cur.edges

unfoldable pub navigable_edges : Walker → List StepEdge
unfolding edges_from
navigable_edges w = edges_from (step w.g w.current)

-- The moves that the server makes.
pub data Move : Type 0 where
  ahead back_up : Move
  to_step : Bytes → Move
  along : EdgeLabel → Move

unfoldable pub make : Walker → Move → Outcome
make w ahead = forward w
make w back_up = back w
make w (to_step id) = go_to w id
make w (along label) = follow_edge_label w label

unfoldable pub make_all : Walker → List Move → Walker
unfolding make
make_all w [] = w
make_all w (m ∷ ms) = make_all (make w m).0 ms
