-- ===== src/Review.antt =====
-- server/open_review_session.go: the step graph of a review session.
pub mod Chain
pub mod Traversal
pub mod Walk
pub mod Ready
pub mod Ids
use codewalker.Prelude.{
  ℕ, ◌+◌, ◌-◌, Bytes, bytes, Bool, true, false, List, [], ◌∷◌, ◌++◌, Option, none, some, length,
  take, drop, ◌==◌, if◌then◌else◌,
}
use codewalker.Prelude.Int.{ℤ, pos, pos_part, ◌+ℤ◌, ◌-ℤ◌, ltℤ, to_int, to_uint32}
use codewalker.Prelude.Assoc.{Assoc, lookup, put}
use codewalker.Prelude.Strings.{join, itoa}
use codewalker.Proto
use codewalker.Proto.{StepKind, EdgeLabel, HunkSpan, StepEdge}
use codewalker.Graph.{Graph, Step, new_graph, add, step, append_edges}
use codewalker.Forge.{Hunk, ReviewFile}

abbrev pub newline : ℕ
newline = b'\n'

abbrev pub hunk_context_lines : ℤ
hunk_context_lines = pos 5

-- The bounds are `int`s and are cut to the lines that there are.
unfoldable pub extract_context_lines : List Bytes → ℤ → ℤ → Bytes
unfolding join
extract_context_lines lines start end =
    let lo : ℤ = if ltℤ start (pos 0) then pos 0 else start in
    let hi : ℤ = if ltℤ (pos (length lines)) end then pos (length lines) else end in
    if ltℤ lo hi then join (drop (pos_part lo) (take (pos_part hi) lines)) (newline ∷ []) else []

unfoldable pub hunk_id : Bytes → ℤ → Bytes
unfolding itoa
hunk_id path new_start = bytes "hunk:" ++ (path ++ (bytes ":" ++ itoa new_start))

unfoldable pub context_of : List Bytes → ℤ → ℤ → Bytes
unfolding extract_context_lines
context_of [] start end = []
context_of (l ∷ lines) start end = extract_context_lines (l ∷ lines) start end

-- The step of a hunk, as it is allocated: with no edge.
unfoldable pub hunk_step : Bytes → List Bytes → Bool → Hunk → Step
unfolding hunk_id itoa context_of to_int
hunk_step path lines omit_raw hunk = record {
  id = hunk_id path hunk.new_start;
  label = path ++ (bytes ":" ++ itoa hunk.new_start);
  kind = StepKind.hunk;
  source = none;
  hunk_span = some (record {
    file_path = path;
    old_start = to_uint32 hunk.old_start;
    old_lines = to_uint32 hunk.old_lines;
    new_start = to_uint32 hunk.new_start;
    new_lines = to_uint32 hunk.new_lines;
    raw_diff = if omit_raw then [] else hunk.raw_diff;
    context_before =
        context_of lines (to_int (hunk.new_start -ℤ hunk_context_lines -ℤ pos 1))
          (to_int (hunk.new_start -ℤ pos 1));
    context_after =
        context_of lines (to_int (hunk.new_start +ℤ hunk.new_lines -ℤ pos 1))
          (to_int (hunk.new_start +ℤ hunk.new_lines +ℤ hunk_context_lines -ℤ pos 1));
  });
  edges = [];
  visited = false;
}

abbrev pub next_edge : Bytes → StepEdge
next_edge id = record {
  target_step_id = id;
  label = EdgeLabel.next;
  description = [];
  navigable = true;
  external_call_info = none;
}

-- The variables of the loop over the hunks, but for the entries of the files.
pub record Builder : Type 0 where
  pub graph : Graph
  pub ordered_step_ids : List Bytes
  pub prev_step : Option ℕ

enter : Bytes → Graph → Graph
enter id g = if g.entry_id == [] then record g { entry_id = id } else g

connect : Option ℕ → Bytes → Graph → Graph
unfolding append_edges
connect none id g = g
connect (some p) id g = append_edges g p (next_edge id ∷ [])

-- A round of the loop, from `g.Add(step)` on.
unfoldable pub link_step : Builder → Step → Builder
unfolding enter connect add
link_step b s = record {
  graph = connect b.prev_step s.id (enter s.id (add b.graph s));
  ordered_step_ids = b.ordered_step_ids ++ s.id ∷ [];
  prev_step = some (length b.graph.heap);
}

pub record HunkGraph : Type 0 where
  pub builder : Builder
  pub file_entry_step_ids : Assoc Bytes

unfoldable pub add_hunk : Bytes → List Bytes → Bool → HunkGraph → Hunk → HunkGraph
unfolding link_step hunk_step lookup put
add_hunk path lines omit_raw h hunk =
    let s = hunk_step path lines omit_raw hunk in
    record {
      builder = link_step h.builder s;
      file_entry_step_ids = elim (lookup path h.file_entry_step_ids) [
        | none ↦ put path s.id h.file_entry_step_ids
        | some _ ↦ h.file_entry_step_ids
      ];
    }

unfoldable pub add_hunks : Bytes → List Bytes → Bool → HunkGraph → List Hunk → HunkGraph
unfolding add_hunk
add_hunks path lines omit_raw h [] = h
add_hunks path lines omit_raw h (hunk ∷ hunks) =
    add_hunks path lines omit_raw (add_hunk path lines omit_raw h hunk) hunks

-- `fileLines[path]`, nil for a file with no lines fetched
unfoldable pub lines_of : Assoc (List Bytes) → Bytes → List Bytes
unfolding lookup
lines_of file_lines path = elim (lookup path file_lines) [ none ↦ [] | some lines ↦ lines ]

unfoldable pub add_files : Assoc (List Bytes) → Bool → HunkGraph → List ReviewFile → HunkGraph
unfolding add_hunks lines_of
add_files file_lines omit_raw h [] = h
add_files file_lines omit_raw h (f ∷ files) =
    add_files file_lines omit_raw (add_hunks f.path (lines_of file_lines f.path) omit_raw h f.hunks)
      files

abbrev pub empty_builder : Builder
empty_builder = record { graph = new_graph; ordered_step_ids = []; prev_step = none }

unfoldable pub build_hunk_graph : List ReviewFile → Assoc (List Bytes) → Bool → HunkGraph
unfolding add_files
build_hunk_graph files file_lines omit_raw =
    add_files file_lines omit_raw (record { builder = empty_builder; file_entry_step_ids = [] })
      files

-- The steps of the given IDs, an ID that the graph lacks left out.
unfoldable pub proto_review_steps : Graph → List Bytes → List Step
unfolding step
proto_review_steps g [] = []
proto_review_steps g (id ∷ ids) =
    let rest = proto_review_steps g ids in elim (step g id) [ none ↦ rest | some s ↦ s ∷ rest ]
