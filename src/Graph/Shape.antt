-- ===== src/Graph/Shape.antt =====
-- What the operations on a graph change: the pointers of the map stay valid, and marking a step as
-- visited changes nothing else.
use codewalker.Prelude.{
  ℕ, zero, suc, Bytes, true, false, List, [], ◌∷◌, ◌++◌, Option, none, some, length, get_elem?,
  modify, ◌≡◌, refl, ◌∙◌, arith, ◌==◌, eq_iff, Option-cases, Bool-cases, inl, inr,
  get_elem?-append_left, get_elem?-snoc,
}
use codewalker.Prelude.Assoc.{lookup, lookup-put}
use codewalker.Proto.{StepEdge}
use codewalker.Graph.{Graph, Step, new_graph, add, step, step_ref, append_edges, mark_visited}

-- A step without its visited flag.
abbrev pub unseen : Step → Step
unseen s = record s { visited = false }

abbrev pub unseen? : Option Step → Option Step
unseen? none = none
unseen? (some s) = some (unseen s)

abbrev visit : Step → Step
visit s = record s { visited = true }

get_elem?-modify_unseen :
    (p q : ℕ) (heap : List Step)
    → unseen? (get_elem? (modify p visit heap) q) ≡ unseen? (get_elem? heap q)
get_elem?-modify_unseen p q [] = refl
get_elem?-modify_unseen zero zero (s ∷ heap) = refl
get_elem?-modify_unseen zero (suc q) (s ∷ heap) = refl
get_elem?-modify_unseen (suc p) zero (s ∷ heap) = refl
get_elem?-modify_unseen (suc p) (suc q) (s ∷ heap) = get_elem?-modify_unseen p q heap

get_elem?-modify_self :
    (p : ℕ) (f : Step → Step) (heap : List Step) {s : Step}
    → get_elem? heap p ≡ some s
    → get_elem? (modify p f heap) p ≡ some (f s)
get_elem?-modify_self p f [] h = cc
get_elem?-modify_self zero f (x ∷ heap) h = ground arith
get_elem?-modify_self (suc p) f (x ∷ heap) h = get_elem?-modify_self p f heap h

-- Marking a step leaves every step as it was, but for the flag.
pub step-mark_visited :
    (g : Graph) (id j : Bytes) → unseen? (step (mark_visited g id) j) ≡ unseen? (step g j)
unfolding step mark_visited
step-mark_visited g id j = elim (Option-cases (lookup id g.steps)) [
  | inl e ↦ ground arith
  | inr (p, e) ↦ elim (Option-cases (lookup j g.steps)) [
    | inl e' ↦ ground arith
    | inr (q, e') ↦ ground (arith, get_elem?-modify_unseen p q g.heap)
  ]
]

-- The marked step is the one that it was, with the flag set.
pub step-mark_visited_self :
    (g : Graph) (id : Bytes) {s : Step}
    → step g id ≡ some s
    → step (mark_visited g id) id ≡ some (record s { visited = true })
unfolding step mark_visited
step-mark_visited_self g id {s} h = elim (Option-cases (lookup id g.steps)) [
  | inl e ↦ ground arith
  | inr (p, e) ↦ ground (arith, get_elem?-modify_self p visit g.heap {s = s})
]

-- Each pointer of the map points to a step on the heap that has its key for an ID.
pub record IsWellFormed (g : Graph) : Type 0 where
  pub at_key :
      (k : Bytes) (p : ℕ)
      → step_ref g k ≡ some p
      → (s : Step) × (get_elem? g.heap p ≡ some s) × (s.id ≡ k)

pub new_graph-IsWellFormed : IsWellFormed new_graph
unfolding step_ref
new_graph-IsWellFormed = record { at_key = λ k p h. absurd (ground arith) }

pub add-IsWellFormed : {g : Graph} (s : Step) → IsWellFormed g → IsWellFormed (add g s)
unfolding add step_ref
add-IsWellFormed {g} s w = record {
  at_key = λ k p h. elim (Bool-cases (s.id == k)) [
    | inl e ↦
        let q : length g.heap ≡ p = ground (arith, lookup-put s.id k (length g.heap) g.steps) in
        rw (← q) (s, get_elem?-snoc g.heap s, (eq_iff s.id k).0 e)
    | inr e ↦
        let q : lookup k g.steps ≡ some p =
          ground (arith, lookup-put s.id k (length g.heap) g.steps) in
        let (t, at, id) = w.at_key k p q in (t, get_elem?-append_left g.heap (s ∷ []) p at, id)
  ];
}

get_elem?-modify_id :
    (p q : ℕ) (f : Step → Step) (heap : List Step) {s : Step}
    → ((t : Step) → (f t).id ≡ t.id)
    → get_elem? heap q ≡ some s
    → (t : Step) × (get_elem? (modify p f heap) q ≡ some t) × (t.id ≡ s.id)
get_elem?-modify_id p q f [] same h = cc
get_elem?-modify_id zero zero f (x ∷ heap) same h = (f x, refl, ground (arith, same x))
get_elem?-modify_id zero (suc q) f (x ∷ heap) {s} same h = (s, h, refl)
get_elem?-modify_id (suc p) zero f (x ∷ heap) {s} same h = (s, h, refl)
get_elem?-modify_id (suc p) (suc q) f (x ∷ heap) same h = get_elem?-modify_id p q f heap same h

pub append_edges-IsWellFormed :
    {g : Graph} (p : ℕ) (es : List StepEdge) → IsWellFormed g → IsWellFormed (append_edges g p es)
unfolding append_edges step_ref
append_edges-IsWellFormed {g} p es w = record {
  at_key = λ k q h.
      let (s, at, id) = w.at_key k q h in
      let (t, at', id') =
        get_elem?-modify_id p q (λ s. record s { edges = s.edges ++ es }) g.heap (λ t. refl) at in
      (t, at', id' ∙ id);
}

pub mark_visited-IsWellFormed :
    {g : Graph} (id : Bytes) → IsWellFormed g → IsWellFormed (mark_visited g id)
unfolding mark_visited step_ref
mark_visited-IsWellFormed {g} id w = elim (Option-cases (lookup id g.steps)) [
  | inl e ↦ rw e w
  | inr (p, e) ↦ rw e (record {
    at_key = λ k q h.
        let (s, at, i) = w.at_key k q h in
        let (t, at', i') = get_elem?-modify_id p q visit g.heap (λ t. refl) at in (t, at', i' ∙ i);
  })
]
