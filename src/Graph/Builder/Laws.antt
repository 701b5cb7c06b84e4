-- ===== src/Graph/Builder/Laws.antt =====
-- internal/graph/builder.go: the graph that `Build` makes has its entry.
use codewalker.Prelude.{
  ℕ, suc, Bytes, Bool, true, false, List, [], ◌∷◌, none, some, length, ◌≡◌, refl, ◌∙◌, inl, inr,
  ◌==◌, eq_refl, Bool-cases, if◌then◌else◌,
}
use mathlib.Core.Option.{some-injective}
use mathlib.Core.Path.{subst}
use codewalker.Prelude.Assoc.{lookup-put}
use codewalker.Proto.{StepEdge}
use codewalker.Graph.{Graph, Step, add, append_edges, step, step_ref}
use codewalker.Graph.Shape.{
  IsWellFormed, new_graph-IsWellFormed, add-IsWellFormed, append_edges-IsWellFormed,
}
use codewalker.Graph.Walker.{new_walker}
use codewalker.Graph.Walker.Moves.{IsKnown, IsOnGraph}
use codewalker.Graph.Builder.{
  NodeInfo, Node, Nodes, node, nil, cons, Building, Entry, node_step, step_id, add_step, add_edges,
  build_node, build_children, build_entry, build_others, build_fallback, after_entry, set_entry,
  empty_building, entry_of, is_function, is_entry, build,
}

-- The map has the ID.
abbrev pub Has : Graph → Bytes → Type 0
Has g k = (p : ℕ) × (step_ref g k ≡ some p)

-- A graph that was added to.
record Extends (g h : Graph) : Type 0 where
  keep : (k : Bytes) → Has g k → Has h k
  shape : IsWellFormed g → IsWellFormed h

Extends-refl : (g : Graph) → Extends g g
Extends-refl g = record { keep = λ k h. h; shape = λ w. w }

Extends-trans : {f g h : Graph} → Extends f g → Extends g h → Extends f h
Extends-trans a b = record { keep = λ k h. b.keep k (a.keep k h); shape = λ w. b.shape (a.shape w) }

Has-added : (g : Graph) (s : Step) → Has (add g s) s.id
unfolding add step_ref
Has-added g s =
    (length g.heap, lookup-put s.id s.id (length g.heap) g.steps ∙ rw (eq_refl s.id) refl)

add-Extends : (g : Graph) (s : Step) → Extends g (add g s)
unfolding add step_ref
add-Extends g s = record {
  keep = λ k h. elim (Bool-cases (s.id == k)) [
    | inl e ↦ (length g.heap, lookup-put s.id k (length g.heap) g.steps ∙ rw e refl)
    | inr e ↦ (h.0, lookup-put s.id k (length g.heap) g.steps ∙ rw e h.1)
  ];
  shape = add-IsWellFormed s;
}

add_edges-Extends : (p : ℕ) (x : Building × List StepEdge) → Extends x.0.graph (add_edges p x).graph
unfolding append_edges step_ref
add_edges-Extends p (b, es) = record { keep = λ k h. h; shape = append_edges-IsWellFormed p es }

mutual
  unfolding build_node

  build_node-Extends :
      (omit_raw : Bool) (n : Node) (b : Building) → Extends b.graph (build_node omit_raw n b).graph
  build_node-Extends omit_raw (node n children) b =
      Extends-trans (add-Extends b.graph (node_step omit_raw n (suc b.counter))) (
        Extends-trans (build_children-Extends omit_raw children (add_step omit_raw n b)) (
          add_edges-Extends (length b.graph.heap)
            (build_children omit_raw children (add_step omit_raw n b))))

  build_children-Extends :
      (omit_raw : Bool) (ns : Nodes) (b : Building)
      → Extends b.graph (build_children omit_raw ns b).0.graph
  build_children-Extends omit_raw nil b = Extends-refl b.graph
  build_children-Extends omit_raw (cons (node n children) rest) b =
      Extends-trans (build_node-Extends omit_raw (node n children) b)
        (build_children-Extends omit_raw rest (build_node omit_raw (node n children) b))

build_node-Has :
    (omit_raw : Bool) (n : NodeInfo) (children : Nodes) (b : Building)
    → Has (build_node omit_raw (node n children) b).graph (step_id n (suc b.counter))
unfolding build_node node_step
build_node-Has omit_raw n children b =
    (Extends-trans (build_children-Extends omit_raw children (add_step omit_raw n b)) (
        add_edges-Extends (length b.graph.heap)
          (build_children omit_raw children (add_step omit_raw n b)))).keep
      (step_id n (suc b.counter)) (Has-added b.graph (node_step omit_raw n (suc b.counter)))

-- The graph is in shape, and has the entry if there is one.
record IsBuilt (b : Building) (e : Entry) : Type 0 where
  shape : IsWellFormed b.graph
  known : (x : Bytes × Bytes) → e ≡ some x → Has b.graph x.0

built :
    (omit_raw : Bool) (n : NodeInfo) (children : Nodes) (b : Building) {e : Entry}
    → IsBuilt b e
    → IsBuilt (build_node omit_raw (node n children) b) (entry_of n b)
built omit_raw n children b h = record {
  shape = (build_node-Extends omit_raw (node n children) b).shape h.shape;
  known = λ x q.
      subst (λ (y : Bytes × Bytes). Has (build_node omit_raw (node n children) b).graph y.0)
        (some-injective _ x q) (build_node-Has omit_raw n children b);
}

kept :
    (omit_raw : Bool) (n : Node) (b : Building) {e : Entry}
    → IsBuilt b e
    → IsBuilt (build_node omit_raw n b) e
kept omit_raw n b h =
    let grown = build_node-Extends omit_raw n b in
    record { shape = grown.shape h.shape; known = λ x q. grown.keep x.0 (h.known x q) }

abbrev Built : Building × Entry → Type 0
Built r = IsBuilt r.0 r.1

one_of {ℓ} : {A : Type ℓ} (P : A → Type 0) (c : Bool) (x y : A) → P x → P y → P (if c then x else y)
one_of P true x y hx hy = hx
one_of P false x y hx hy = hy

build_entry-IsBuilt :
    (omit_raw : Bool) (symbol : Bytes) (nodes : List Node) (b : Building) (e : Entry)
    → IsBuilt b e
    → Built (build_entry omit_raw symbol nodes b e)
unfolding build_entry
build_entry-IsBuilt omit_raw symbol [] b e h = h
build_entry-IsBuilt omit_raw symbol (node n children ∷ nodes) b e h =
    let skipped = build_entry-IsBuilt omit_raw symbol nodes b e h in
    let here = built omit_raw n children b h in
    one_of Built (is_function n.kind) _ _
      (one_of Built (symbol == []) _ _ here (
        one_of Built (n.label == symbol) _ _
          (build_entry-IsBuilt omit_raw symbol nodes (build_node omit_raw (node n children) b)
            (entry_of n b) here)
          skipped))
      skipped

build_others-IsBuilt :
    (omit_raw : Bool) (e : Entry) (nodes : List Node) (b : Building)
    → IsBuilt b e
    → IsBuilt (build_others omit_raw e nodes b) e
unfolding build_others
build_others-IsBuilt omit_raw e [] b h = h
build_others-IsBuilt omit_raw e (node n children ∷ nodes) b h =
    let skipped = build_others-IsBuilt omit_raw e nodes b h in
    one_of (λ (c : Building). IsBuilt c e) (is_function n.kind) _ _
      (one_of (λ (c : Building). IsBuilt c e) (is_entry e n.label) _ _ skipped
        (build_others-IsBuilt omit_raw e nodes (build_node omit_raw (node n children) b)
          (kept omit_raw (node n children) b h)))
      skipped

-- With a node there is an entry.
build_fallback-IsBuilt :
    (omit_raw : Bool) (e : Entry) (n : Node) (nodes : List Node) (b : Building)
    → IsBuilt b e
    → Built (build_fallback omit_raw e (n ∷ nodes) b)
      × ((x : Bytes × Bytes) × ((build_fallback omit_raw e (n ∷ nodes) b).1 ≡ some x))
unfolding build_fallback
build_fallback-IsBuilt omit_raw (some e) n nodes b h = (h, (e, refl))
build_fallback-IsBuilt omit_raw none (node n children) nodes b h =
    (built omit_raw n children b h, ((step_id n (suc b.counter), n.label), refl))

Has-IsKnown : (g : Graph) (k : Bytes) → IsWellFormed g → Has g k → IsKnown g k
unfolding step
Has-IsKnown g k w (p, h) = let (s, at, _) = w.at_key k p h in (s, rw h at)

set_entry-IsOnGraph :
    (r : Building × Entry) (x : Bytes × Bytes)
    → Built r
    → r.1 ≡ some x
    → IsOnGraph (new_walker (set_entry r))
unfolding set_entry
set_entry-IsOnGraph (b, none) x h q = cc
set_entry-IsOnGraph (b, some e) x h q =
    let k = Has-IsKnown b.graph e.0 h.shape (h.known e refl) in
    record { current = unfold step step_ref in k; breadcrumb = tt }

empty_building-IsBuilt : IsBuilt empty_building none
empty_building-IsBuilt = record { shape = new_graph-IsWellFormed; known = λ x q. cc }

-- Whatever nodes a file has, at least one, and whatever symbol is asked for, the graph that is built
-- from them has its entry step: a new walker stands on the graph.
pub build-IsOnGraph :
    (n : Node) (nodes : List Node) (omit_raw : Bool) (symbol : Bytes)
    → IsOnGraph (new_walker (build (n ∷ nodes) omit_raw symbol))
unfolding build
build-IsOnGraph n nodes omit_raw symbol =
    let first = build_entry omit_raw symbol (n ∷ nodes) empty_building none in
    let h =
      build_entry-IsBuilt omit_raw symbol (n ∷ nodes) empty_building none empty_building-IsBuilt in
    let (done, (x, q)) =
      build_fallback-IsBuilt omit_raw first.1 n nodes
        (build_others omit_raw first.1 (n ∷ nodes) first.0)
        (build_others-IsBuilt omit_raw first.1 (n ∷ nodes) first.0 h) in
    set_entry-IsOnGraph (after_entry omit_raw (n ∷ nodes) first) x done q
