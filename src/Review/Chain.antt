-- ===== src/Review/Chain.antt =====
-- The loop that links steps builds a chain: each step has one edge, to the step after it.
use codewalker.Prelude.Assoc.{lookup-put, lookup, length-put_absent, put}
use mathlib.Core.List.{foldl}
use mathlib.Core.Path.{subst}
use codewalker.Prelude.{
  append-nil, append_assoc, eq_iff, if◌then◌else◌, ◌==◌, ℕ, zero, suc, Bytes, List, [], ◌∷◌, ◌++◌,
  map, Option, none, some, length, get_elem?, modify, ◌≡◌, refl, ap, arith, All, inr, sym, ◌≢◌, inl,
  length-append, ◌∙◌,
}
use codewalker.Graph.{step, Step, step_ref, Graph, add}
use codewalker.Review.{Builder, next_edge, link_step, empty_builder, connect, enter}

abbrev pub with_next : Step → Bytes → Step
with_next s id = record s { edges = s.edges ++ next_edge id ∷ [] }

-- The steps as the loop leaves them.
unfoldable pub chain : List Step → List Step
chain [] = []
chain (s ∷ []) = s ∷ []
chain (s ∷ t ∷ rest) = with_next s t.id ∷ chain (t ∷ rest)

-- A step with the edge that leads to the step after it, if there is one.
abbrev pub linked : Step → Option Step → Step
linked s none = s
linked s (some t) = with_next s t.id

pub get_elem?-chain :
    (l : List Step) (i : ℕ) {s : Step}
    → get_elem? l i ≡ some s
    → get_elem? (chain l) i ≡ some (linked s (get_elem? l (suc i)))
unfolding chain
get_elem?-chain [] i h = cc
get_elem?-chain (s ∷ []) zero h = h
get_elem?-chain (s ∷ []) (suc i) h = cc
get_elem?-chain (s ∷ t ∷ l) zero h = ground arith
get_elem?-chain (s ∷ t ∷ l) (suc i) h = get_elem?-chain (t ∷ l) i h

pub length-chain : (l : List Step) → length (chain l) ≡ length l
unfolding chain
length-chain [] = refl
length-chain (s ∷ []) = refl
length-chain (s ∷ t ∷ l) = ap suc (length-chain (t ∷ l))

modify-chain :
    (x : Step) (xs : List Step) (s : Step)
    → modify (length xs) (λ t. with_next t s.id) (chain (x ∷ xs) ++ s ∷ [])
      ≡ chain ((x ∷ xs) ++ s ∷ [])
unfolding chain
modify-chain x [] s = refl
modify-chain x (y ∷ ys) s = ap (◌∷◌ (with_next x y.id)) (modify-chain y ys s)

abbrev pub last_index : List Step → Option ℕ
last_index [] = none
last_index (x ∷ xs) = some (length xs)

abbrev pub first_id : List Step → Bytes
first_id [] = []
first_id (s ∷ l) = s.id

-- The builder after the steps of the list: they are on the heap in order, and the map finds each.
pub record IsChain (b : Builder) (done : List Step) : Type 0 where
  pub heap : b.graph.heap ≡ chain done
  pub refs : (i : ℕ) (s : Step) → get_elem? done i ≡ some s → step_ref b.graph s.id ≡ some i
  pub ordered : b.ordered_step_ids ≡ map (λ (s : Step). s.id) done
  pub prev : b.prev_step ≡ last_index done
  pub entry : b.graph.entry_id ≡ first_id done
  pub fresh : (k : Bytes) → All (λ (t : Step). t.id ≢ k) done → step_ref b.graph k ≡ none
  pub size : length b.graph.steps ≡ length done

empty_builder-IsChain : IsChain empty_builder []
unfolding chain step_ref
empty_builder-IsChain = record {
  heap = refl;
  refs = λ i s h. cc;
  ordered = refl;
  prev = refl;
  entry = refl;
  fresh = λ k h. refl;
  size = refl;
}

enter_steps : (id : Bytes) (g : Graph) → (enter id g).steps ≡ g.steps
unfolding enter
enter_steps id g = ground arith

enter_heap : (id : Bytes) (g : Graph) → (enter id g).heap ≡ g.heap
unfolding enter
enter_heap id g = ground arith

connect_steps : (p : Option ℕ) (id : Bytes) (g : Graph) → (connect p id g).steps ≡ g.steps
unfolding connect
connect_steps none id g = refl
connect_steps (some p) id g = refl

connect_entry : (p : Option ℕ) (id : Bytes) (g : Graph) → (connect p id g).entry_id ≡ g.entry_id
unfolding connect
connect_entry none id g = refl
connect_entry (some p) id g = refl

connect_heap :
    (done : List Step) (s : Step) (g : Graph)
    → g.heap ≡ chain done ++ s ∷ []
    → (connect (last_index done) s.id g).heap ≡ chain (done ++ s ∷ [])
unfolding connect chain
connect_heap [] s g h = h
connect_heap (x ∷ xs) s g h = rw h (modify-chain x xs s)

get_elem?-snoc_cases :
    (done : List Step) (s t : Step) (i : ℕ)
    → get_elem? (done ++ s ∷ []) i ≡ some t
    → codewalker.Prelude.◌⊎◌ (get_elem? done i ≡ some t) ((i ≡ length done) × (t ≡ s))
get_elem?-snoc_cases [] s t zero h = inr (refl, ground arith)
get_elem?-snoc_cases [] s t (suc i) h = cc
get_elem?-snoc_cases (x ∷ done) s t zero h = inl h
get_elem?-snoc_cases (x ∷ done) s t (suc i) h = elim (get_elem?-snoc_cases done s t i h) [
  | inl e ↦ inl e
  | inr (e, e') ↦ inr (ap suc e, e')
]

All-get_elem? :
    (done : List Step) (k : Bytes) (i : ℕ) {t : Step}
    → All (λ (t : Step). t.id ≢ k) done
    → get_elem? done i ≡ some t
    → t.id ≢ k
All-get_elem? [] k i h e = cc
All-get_elem? (x ∷ done) k zero (hx, h) e = ground arith
All-get_elem? (x ∷ done) k (suc i) (hx, h) e = All-get_elem? done k i h e

All-snoc :
    (done : List Step) (s : Step) (k : Bytes)
    → All (λ (t : Step). t.id ≢ k) (done ++ s ∷ [])
    → All (λ (t : Step). t.id ≢ k) done × (s.id ≢ k)
All-snoc [] s k h = (tt, h.0)
All-snoc (x ∷ done) s k (hx, h) = let (a, b) = All-snoc done s k h in ((hx, a), b)

link_steps :
    (b : Builder) (s : Step)
    → (link_step b s).graph.steps ≡ put s.id (length b.graph.heap) b.graph.steps
unfolding link_step
link_steps b s =
    connect_steps b.prev_step s.id (enter s.id (add b.graph s)) ∙ enter_steps s.id (add b.graph s)

map-snoc :
    (done : List Step) (s : Step)
    → map (λ (t : Step). t.id) (done ++ s ∷ []) ≡ map (λ (t : Step). t.id) done ++ s.id ∷ []
map-snoc [] s = refl
map-snoc (x ∷ done) s = ap (◌∷◌ x.id) (map-snoc done s)

last_index-snoc : (done : List Step) (s : Step) → some (length done) ≡ last_index (done ++ s ∷ [])
last_index-snoc [] s = refl
last_index-snoc (x ∷ done) s = ap some (sym (length-append done (s ∷ []) ∙ omega arith))

link_entry :
    (b : Builder) (done : List Step) (s : Step)
    → b.graph.entry_id ≡ first_id done
    → All (λ (t : Step). t.id ≢ []) done
    → (link_step b s).graph.entry_id ≡ first_id (done ++ s ∷ [])
unfolding link_step enter add
link_entry b [] s h ne =
    connect_entry b.prev_step s.id (enter s.id (add b.graph s))
    ∙ ground (arith, eq_iff b.graph.entry_id [])
link_entry b (x ∷ done) s h ne =
    connect_entry b.prev_step s.id (enter s.id (add b.graph s))
    ∙ ground (arith, eq_iff b.graph.entry_id [])

-- One more step, with an ID that no step before it has.
pub link_step-IsChain :
    (b : Builder) (done : List Step) (s : Step)
    → IsChain b done
    → All (λ (t : Step). t.id ≢ s.id) done
    → All (λ (t : Step). t.id ≢ []) done
    → IsChain (link_step b s) (done ++ s ∷ [])
link_step-IsChain b done s h new ne = record {
  heap =
      unfold link_step in
      rw h.prev (
        connect_heap done s (enter s.id (add b.graph s))
          (enter_heap s.id (add b.graph s) ∙ unfold add in ap (λ l. l ++ s ∷ []) h.heap));
  refs = λ i t e. unfold step_ref in rw link_steps (rw lookup-put (refs' i t e));
  ordered = unfold link_step in rw (h.ordered) (sym (map-snoc done s));
  prev = unfold link_step in ap some size' ∙ last_index-snoc done s;
  entry = link_entry b done s h.entry ne;
  fresh = λ k a.
      let (old, s_ne) = All-snoc done s k a in
      let r : lookup k b.graph.steps ≡ none = unfold step_ref in h.fresh k old in
      unfold step_ref in
      rw link_steps
        (lookup-put s.id k (length b.graph.heap) b.graph.steps ∙ ground (arith, eq_iff s.id k));
  size = rw link_steps (
      length-put_absent s.id (length b.graph.heap) b.graph.steps
        (unfold step_ref in h.fresh s.id new)
      ∙ ap suc h.size
      ∙ sym (length-append done (s ∷ []) ∙ omega arith));
}
  where
    size' : length b.graph.heap ≡ length done
    size' = ap length h.heap ∙ length-chain done

    refs' :
        (i : ℕ) (t : Step)
        → get_elem? (done ++ s ∷ []) i ≡ some t
        → (if s.id == t.id then some (length b.graph.heap) else lookup t.id b.graph.steps) ≡ some i
    refs' i t e = elim (get_elem?-snoc_cases done s t i e) [
      | inl old ↦
          let r : lookup t.id b.graph.steps ≡ some i = unfold step_ref in h.refs i t old in
          ground (arith, eq_iff s.id t.id, All-get_elem? done s.id i {t = t} new old)
      | inr (at_end, same) ↦ ground (arith, eq_iff s.id t.id, size')
    ]

-- No two steps have one ID.
abbrev pub Distinct : List Step → Type 0
Distinct [] = Unit
Distinct (s ∷ l) = All (λ (t : Step). t.id ≢ s.id) l × Distinct l

Distinct-middle :
    (done : List Step) (s : Step) (rest : List Step)
    → Distinct (done ++ s ∷ rest)
    → All (λ (t : Step). t.id ≢ s.id) done
Distinct-middle [] s rest h = tt
Distinct-middle (x ∷ done) s rest (hx, h) =
    (λ e. All-middle done s rest hx (sym e), Distinct-middle done s rest h)
  where
    All-middle :
        (done : List Step) (s : Step) (rest : List Step)
        → All (λ (t : Step). t.id ≢ x.id) (done ++ s ∷ rest)
        → s.id ≢ x.id
    All-middle [] s rest h = h.0
    All-middle (y ∷ done) s rest h = All-middle done s rest h.1

abbrev pub Named : List Step → Type 0
Named = All (λ (t : Step). t.id ≢ [])

Named-left : (l r : List Step) → Named (l ++ r) → Named l
Named-left [] r h = tt
Named-left (x ∷ l) r (hx, h) = (hx, Named-left l r h)

link_all-IsChain :
    (rest done : List Step) (b : Builder)
    → IsChain b done
    → Distinct (done ++ rest)
    → Named (done ++ rest)
    → IsChain (foldl link_step b rest) (done ++ rest)
link_all-IsChain [] done b h d n = rw append-nil h
link_all-IsChain (s ∷ rest) done b h d n =
    let e = append_assoc done (s ∷ []) rest in
    subst (IsChain (foldl link_step (link_step b s) rest)) e (
      link_all-IsChain rest (done ++ s ∷ []) (link_step b s)
        (link_step-IsChain b done s h (Distinct-middle done s rest d)
          (Named-left done (s ∷ rest) n))
        (rw e d) (rw e n))

-- The loop over steps with distinct names builds the chain of them.
pub link_all-IsChain_all :
    (l : List Step) → Distinct l → Named l → IsChain (foldl link_step empty_builder l) l
link_all-IsChain_all l d n = link_all-IsChain l [] empty_builder empty_builder-IsChain d n

-- What the graph of a chain has at the ID of its step `i`.
pub IsChain-step :
    {b : Builder} (l : List Step) (i : ℕ) {s : Step}
    → IsChain b l
    → get_elem? l i ≡ some s
    → step b.graph s.id ≡ some (linked s (get_elem? l (suc i)))
unfolding step step_ref
IsChain-step {b} l i {s} h e =
    let r : lookup s.id b.graph.steps ≡ some i = h.refs i s e in
    let c : get_elem? b.graph.heap i ≡ get_elem? (chain l) i =
      ap (λ (x : List Step). get_elem? x i) h.heap in
    rw r (c ∙ get_elem?-chain l i e)
