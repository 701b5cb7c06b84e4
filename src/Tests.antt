-- ===== src/Tests.antt =====
-- Runs of the model on small reviews, sessions and walkers, and the theorems applied to them.
pub mod Sessions
pub mod Forges
pub mod Graphs
pub mod Packages
pub mod Parsers
pub mod Answers
pub mod Lives
pub mod Systems
use codewalker.Prelude.{
  ℕ, Bytes, bytes, Bool, true, false, List, [], ◌∷◌, ◌++◌, Option, none, some, Result, ok, err, ◌≡◌,
  refl, All, length, get_elem?, take, arith, ltb, ◌↔◌, ◌<◌, ◌≢◌, ap,
}
use codewalker.Prelude.Int.{ℤ, pos}
use codewalker.Proto.{StepKind, EdgeLabel, NarrateEvent, StepEdge}
use codewalker.Graph.{Graph, Step, len, new_graph, add, step}
use codewalker.Graph.Walker.{
  Walker, new_walker, go_to, back, forward, make_all, Move, ahead, back_up, to_step, at_first_step,
  not_reachable, no_edge,
}
use codewalker.Graph.Shape.{unseen?}
use codewalker.Graph.Builder.{Node, Nodes, NodeKind, node, nil, cons, build}
use codewalker.Graph.Builder.Laws.{build-IsOnGraph}
use codewalker.Graph.Walker.Laws.{go_to_iff, back-go_to}
use codewalker.Graph.Walker.Moves.{
  IsKnown, IsOnGraph, SameSteps, go_all, back_times, back_times-go_all, make_all-IsOnGraph,
  make_all-SameSteps, back-fails_at_first,
}
use codewalker.Forge.{Hunk, ReviewFile}
use codewalker.Review.{build_hunk_graph, proto_review_steps, next_edge, hunk_step}
use codewalker.Review.Chain.{Distinct, chain}
use codewalker.Review.Traversal.{review_steps, forwards}
use codewalker.Review.Walk.{ids, forwards-review_steps, forward-at_last}
use codewalker.Review.Ready.{proto_review_steps-review_steps}
use codewalker.Review.Ids.{
  places, places_of, DistinctPlaces, DistinctPlaces-Distinct, hunk_id-injective,
}

-- A graph of two steps, the first of which leads to the second.

abbrev pub a_step : Bytes → List StepEdge → Step
a_step id edges = record {
  id = id;
  label = id;
  kind = StepKind.call;
  source = none;
  hunk_span = none;
  edges = edges;
  visited = false;
}

abbrev pub first_step : Step
first_step = a_step (bytes "a") (next_edge (bytes "b") ∷ [])

abbrev second_step : Step
second_step = a_step (bytes "b") []

abbrev pub two_steps : Graph
two_steps = record (add (add new_graph first_step) second_step) { entry_id = bytes "a" }

abbrev pub a_walker : Walker
a_walker = new_walker two_steps

knows_a : IsKnown two_steps (bytes "a")
unfolding step add codewalker.Graph.step_ref codewalker.Prelude.◌==◌
knows_a = (first_step, refl)

knows_b : IsKnown two_steps (bytes "b")
unfolding step add codewalker.Graph.step_ref codewalker.Prelude.◌==◌
knows_b = (second_step, refl)

pub a_walker-IsOnGraph : IsOnGraph a_walker
a_walker-IsOnGraph = record { current = knows_a; breadcrumb = tt }

walks : (forward a_walker).0.breadcrumb ≡ bytes "a" ∷ []
unfolding forward add codewalker.Graph.Walker.follow_edge_label step codewalker.Graph.step_ref
    codewalker.Prelude.◌==◌ go_to
walks = refl

abbrev pub other_id : Bytes
other_id = bytes "c"

goes_to_b : (s : Step) × ((go_to a_walker (bytes "b")).1 ≡ ok s)
goes_to_b = (go_to_iff a_walker (bytes "b")).1 (knows_a.0, knows_b.0, knows_a.1, knows_b.1)

go_to_iff_example : ((s : Step) × ((go_to a_walker (bytes "b")).1 ≡ ok s)) ↔ (
    (cur : Step) × (t : Step) × (step two_steps (bytes "a") ≡ some cur)
    × (step two_steps (bytes "b") ≡ some t))
go_to_iff_example = go_to_iff a_walker (bytes "b")

back-go_to_example :
    (c : Step) × (back (go_to a_walker (bytes "b")).0
      ≡ (record a_walker { g = (go_to a_walker (bytes "b")).0.g }, ok c))
    × (unseen? (some c) ≡ unseen? (step two_steps (bytes "a")))
back-go_to_example = back-go_to a_walker (bytes "b") goes_to_b.1

back_times-go_all_example :
    (g : Graph) × (back_times 2 (go_all a_walker (bytes "b" ∷ bytes "a" ∷ []))
      ≡ record a_walker { g = g })
    × SameSteps two_steps g
back_times-go_all_example =
    back_times-go_all (bytes "b" ∷ bytes "a" ∷ []) a_walker knows_a (knows_b, (knows_a, tt))

abbrev some_moves : List Move
some_moves = ahead ∷ to_step other_id ∷ back_up ∷ back_up ∷ []

make_all-IsOnGraph_example : IsOnGraph (make_all a_walker some_moves)
make_all-IsOnGraph_example = make_all-IsOnGraph some_moves a_walker a_walker-IsOnGraph

make_all-SameSteps_example : SameSteps two_steps (make_all a_walker some_moves).g
make_all-SameSteps_example = make_all-SameSteps some_moves a_walker

back_at_start : (back a_walker).1 ≡ err at_first_step
unfolding back
back_at_start = refl

back-fails_at_first_example : (at_first_step ≡ at_first_step) × (a_walker.breadcrumb ≡ [])
back-fails_at_first_example =
    back-fails_at_first a_walker at_first_step a_walker-IsOnGraph back_at_start

-- A review of three hunks in two files.

abbrev pub a_hunk : ℕ → Hunk
a_hunk n = record {
  old_start = pos n;
  old_lines = pos 1;
  new_start = pos n;
  new_lines = pos 2;
  raw_diff = bytes "@@";
}

abbrev pub a_file : Bytes → List Hunk → ReviewFile
a_file path hunks = record {
  path = path;
  language = [];
  change_kind = bytes "MODIFIED";
  old_path = [];
  hunks = hunks;
  lines_added = pos 1;
  lines_removed = pos 0;
}

abbrev pub two_files : List ReviewFile
two_files =
    a_file (bytes "a.go") (a_hunk 1 ∷ a_hunk 7 ∷ []) ∷ a_file (bytes "b.go") (a_hunk 1 ∷ []) ∷ []

abbrev first_byte : Bytes × ℤ → ℕ
first_byte ([], n) = 0
first_byte (c ∷ s, n) = c

other_path : (p q : Bytes × ℤ) → first_byte p < first_byte q → q ≢ p
other_path p q h e = let same : first_byte q ≡ first_byte p = ap first_byte e in omega arith

pub two_files-DistinctPlaces : DistinctPlaces (places two_files)
unfolding places places_of
two_files-DistinctPlaces =
    ((λ e. cc, (other_path _ _ (omega arith), tt)), ((other_path _ _ (omega arith), tt), (tt, tt)))

DistinctPlaces-Distinct_example : Distinct (review_steps two_files [] false)
DistinctPlaces-Distinct_example =
    DistinctPlaces-Distinct two_files [] false two_files-DistinctPlaces

abbrev pub last_of_two : Step
last_of_two = hunk_step (bytes "b.go") [] false (a_hunk 1)

third : get_elem? (review_steps two_files [] false) 2 ≡ some last_of_two
unfolding review_steps codewalker.Review.lines_of
third = refl

three : 3 ≡ length (review_steps two_files [] false)
unfolding review_steps
three = refl

forwards-review_steps_example :
    ((forwards 2 (new_walker (build_hunk_graph two_files [] false).builder.graph)).current
      ≡ last_of_two.id)
    × ((forwards 2 (new_walker (build_hunk_graph two_files [] false).builder.graph)).breadcrumb
        ≡ take 2 (ids (review_steps two_files [] false)))
forwards-review_steps_example =
    forwards-review_steps two_files [] false 2 DistinctPlaces-Distinct_example third

forward-at_last_example :
    forward (forwards 2 (new_walker (build_hunk_graph two_files [] false).builder.graph)) ≡ (
      forwards 2 (new_walker (build_hunk_graph two_files [] false).builder.graph),
      err (no_edge EdgeLabel.next last_of_two.id),
    )
forward-at_last_example =
    forward-at_last two_files [] false 2 DistinctPlaces-Distinct_example third three

proto_review_steps-review_steps_example :
    let b = (build_hunk_graph two_files [] false).builder in
    (proto_review_steps b.graph b.ordered_step_ids ≡ chain (review_steps two_files [] false))
    × (len b.graph ≡ length (review_steps two_files [] false))
proto_review_steps-review_steps_example =
    proto_review_steps-review_steps two_files [] false DistinctPlaces-Distinct_example

-- A file of one function with one child.

abbrev a_node : Bytes → NodeKind → Nodes → Node
a_node label kind children =
    node
      (record {
        id = [];
        kind = kind;
        label = label;
        start_line = pos 1;
        end_line = pos 2;
        start_col = pos 0;
        end_col = pos 1;
        text = [];
        calls = [];
      })
      children

abbrev pub a_function : Node
a_function =
    a_node (bytes "func f") NodeKind.function
      (cons (a_node (bytes "return") NodeKind.return_node nil) nil)

-- No label is "f", so the first node is built once more, and the session starts at the copy.
starts_at : (build (a_function ∷ []) false (bytes "f")).entry_id ≡ bytes "step-0003"
unfolding build
starts_at = refl

build-IsOnGraph_example : IsOnGraph (new_walker (build (a_function ∷ []) false (bytes "f")))
build-IsOnGraph_example = build-IsOnGraph a_function [] false (bytes "f")
