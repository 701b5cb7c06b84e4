-- ===== src/Graph/Builder.antt =====
-- internal/graph/builder.go: `Build`, over the nodes of internal/parser/handler.go.
pub mod Laws
use codewalker.Prelude.{
  ℕ, suc, ◌-◌, Bytes, bytes, Bool, true, false, not, List, [], ◌∷◌, ◌++◌, map, Option, none, some,
  length, leb, drop, ◌==◌, ◌&&◌, ◌||◌, if◌then◌else◌,
}
use codewalker.Prelude.Int.{ℤ, pos, to_uint32}
use codewalker.Prelude.Strings.{itoa}
use codewalker.Proto.{StepKind, EdgeLabel, SourceSpan, StepEdge, ExternalCallInfo}
use codewalker.Graph.{Graph, Step, new_graph, add, append_edges}

pub data NodeKind : Type 0 where
  function conditional loop assignment call switch return_node block : NodeKind

pub record CallRef : Type 0 where
  pub package_name : Bytes
  pub symbol : Bytes
  pub line : ℤ
  pub internal : Bool
  pub target_node_id : Bytes

-- The fields of a node but its children.
pub record NodeInfo : Type 0 where
  pub id : Bytes
  pub kind : NodeKind
  pub label : Bytes
  pub start_line : ℤ
  pub end_line : ℤ
  pub start_col : ℤ
  pub end_col : ℤ
  pub text : Bytes
  pub calls : List CallRef

mutual
  pub data Node : Type 0 where
    node : NodeInfo → Nodes → Node

  pub data Nodes : Type 0 where
    nil : Nodes
    cons : Node → Nodes → Nodes

unfoldable pub node_kind_to_step_kind : NodeKind → StepKind
node_kind_to_step_kind function = StepKind.entry
node_kind_to_step_kind conditional = StepKind.conditional
node_kind_to_step_kind switch = StepKind.conditional
node_kind_to_step_kind loop = StepKind.loop
node_kind_to_step_kind assignment = StepKind.assignment
node_kind_to_step_kind call = StepKind.call
node_kind_to_step_kind return_node = StepKind.return
node_kind_to_step_kind block = StepKind.unspecified

-- "%04d"
pad : Bytes → Bytes
pad s = drop (length s) (bytes "0000") ++ s

-- The ID of a node: its own, or else "step-" and the counter.
unfoldable pub step_id : NodeInfo → ℕ → Bytes
unfolding pad itoa
step_id n counter = if n.id == [] then bytes "step-" ++ pad (itoa (pos counter)) else n.id

call_edge : CallRef → StepEdge
call_edge r = record {
  target_step_id = if r.internal && not (r.target_node_id == []) then r.target_node_id else [];
  label = EdgeLabel.call;
  description = bytes "calls " ++ (r.package_name ++ (bytes "." ++ r.symbol));
  navigable = r.internal;
  external_call_info =
      if r.internal
      then none
      else some (record {
        package_name = r.package_name;
        symbol_name = r.symbol;
        llm_summary = [];
        docs_url = [];
        source_url = [];
        version = [];
      });
}

-- The step of a node with the edges of its calls.
unfoldable pub node_step : Bool → NodeInfo → ℕ → Step
unfolding step_id node_kind_to_step_kind call_edge
node_step omit_raw n counter = record {
  id = step_id n counter;
  label = n.label;
  kind = node_kind_to_step_kind n.kind;
  source = some (record {
    start_line = to_uint32 n.start_line;
    start_column = to_uint32 n.start_col;
    end_line = to_uint32 n.end_line;
    end_column = to_uint32 n.end_col;
    raw_source = if omit_raw then [] else n.text;
  });
  hunk_span = none;
  edges = map call_edge n.calls;
  visited = false;
}

-- The variables that the closures share.
pub record Building : Type 0 where
  pub graph : Graph
  pub counter : ℕ

abbrev pub next_to : Bytes → StepEdge
next_to id = record {
  target_step_id = id;
  label = EdgeLabel.next;
  description = [];
  navigable = true;
  external_call_info = none;
}

abbrev add_step : Bool → NodeInfo → Building → Building
add_step omit_raw n b = record {
  graph = add b.graph (node_step omit_raw n (suc b.counter));
  counter = suc b.counter;
}

abbrev add_edges : ℕ → Building × List StepEdge → Building
add_edges p (b, es) = record b { graph = append_edges b.graph p es }

-- `buildNode` and `buildChildren`, with the edges to the children.
unfoldable mutual
  unfolding node_step step_id

  pub build_node : Bool → Node → Building → Building
  build_node omit_raw (node n children) b =
      add_edges (length b.graph.heap) (build_children omit_raw children (add_step omit_raw n b))

  pub build_children : Bool → Nodes → Building → Building × List StepEdge
  build_children omit_raw nil b = (b, [])
  build_children omit_raw (cons (node n children) rest) b =
      let id = step_id n (suc b.counter) in
      let (after, es) = build_children omit_raw rest (build_node omit_raw (node n children) b) in
      (after, next_to id ∷ es)

is_function : NodeKind → Bool
is_function function = true
is_function _ = false

-- The entry: the ID and the label of its step.
abbrev pub Entry : Type 0
Entry = Option (Bytes × Bytes)

abbrev entry_of : NodeInfo → Building → Entry
entry_of n b = some (step_id n (suc b.counter), n.label)

-- The first loop: the functions that the symbol selects, or the first one if there is no symbol.
unfoldable pub build_entry : Bool → Bytes → List Node → Building → Entry → Building × Entry
unfolding build_node is_function ◌==◌
build_entry omit_raw symbol [] b e = (b, e)
build_entry omit_raw symbol (node n children ∷ nodes) b e =
    let skipped = build_entry omit_raw symbol nodes b e in
    let built = build_node omit_raw (node n children) b in
    let later = build_entry omit_raw symbol nodes built (entry_of n b) in
    if is_function n.kind
    then if symbol == []
      then (built, entry_of n b)
      else if n.label == symbol
      then later
      else skipped
    else skipped

is_entry : Entry → Bytes → Bool
unfolding ◌==◌
is_entry none label = false
is_entry (some (id, l)) label = label == l

-- The second loop: the other functions.
unfoldable pub build_others : Bool → Entry → List Node → Building → Building
unfolding build_node is_function is_entry
build_others omit_raw e [] b = b
build_others omit_raw e (node n children ∷ nodes) b =
    let skipped = build_others omit_raw e nodes b in
    let later = build_others omit_raw e nodes (build_node omit_raw (node n children) b) in
    if is_function n.kind then if is_entry e n.label then skipped else later else skipped

-- Without an entry, the first node is built, whatever its kind.
unfoldable pub build_fallback : Bool → Entry → List Node → Building → Building × Entry
unfolding build_node step_id
build_fallback omit_raw (some e) nodes b = (b, some e)
build_fallback omit_raw none [] b = (b, none)
build_fallback omit_raw none (node n children ∷ nodes) b =
    (build_node omit_raw (node n children) b, entry_of n b)

set_entry : Building × Entry → Graph
set_entry (b, none) = b.graph
set_entry (b, some e) = record b.graph { entry_id = e.0 }

abbrev empty_building : Building
empty_building = record { graph = new_graph; counter = 0 }

abbrev after_entry : Bool → List Node → Building × Entry → Building × Entry
after_entry omit_raw nodes (b, e) =
    build_fallback omit_raw e nodes (build_others omit_raw e nodes b)

unfoldable pub build : List Node → Bool → Bytes → Graph
unfolding set_entry build_entry build_others build_fallback
build nodes omit_raw symbol =
    set_entry (after_entry omit_raw nodes (build_entry omit_raw symbol nodes empty_building none))
