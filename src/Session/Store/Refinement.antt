-- ===== src/Session/Store/Refinement.antt =====
-- The registry against its contract: a map from IDs to sessions that forgets the order and the
-- representation of the entries, where a session that was idle for longer than the TTL is gone after
-- a tick.
use codewalker.Prelude.{
  ℕ, Bytes, List, [], ◌∷◌, ◌++◌, Option, none, some, Result, ok, err, ◌≡◌, refl, ap, ◌∙◌, arith,
  if◌then◌else◌, ◌==◌, Option-cases, inl, inr,
}
use codewalker.Prelude.Assoc.{lookup, lookup-remove}
use codewalker.Session.{Session, touch}
use codewalker.Session.Store.{
  Store, StoreError, session_not_found, new_store, set, get, delete, evict,
}
use codewalker.Session.Store.Laws.{
  find, if_fresh, touched, IsConsistent, new_store-IsConsistent, set-IsConsistent, get-IsConsistent,
  delete-IsConsistent, evict-IsConsistent, find-set, find-get_all, find-evict,
}

-- What the server and the eviction loop ask of the registry; a reading of the clock comes with it.
pub data Request : Type 0 where
  add_session : Session → Request
  read_session : ℕ → Bytes → Request
  drop_session : Bytes → Request
  tick : ℕ → Request

abbrev pub Answer : Type 0
Answer = Result StoreError Session

-- The requests on the store, with what `Get` answers.
unfoldable pub perform : ℕ → Request → Store → Store × List Answer
unfolding set get delete evict
perform ttl (add_session s) st = (set st s, [])
perform ttl (read_session now id) st = ((get now st id).0, (get now st id).1 ∷ [])
perform ttl (drop_session id) st = (delete st id, [])
perform ttl (tick now) st = (evict ttl now st, [])

unfoldable pub run : ℕ → List Request → Store → Store × List Answer
unfolding perform
run ttl [] st = (st, [])
run ttl (r ∷ rs) st =
    let (next, answers) = perform ttl r st in
    let (last, more) = run ttl rs next in (last, answers ++ more)

-- The contract.
abbrev pub Registry : Type 0
Registry = Bytes → Option Session

abbrev pub answer_to : ℕ → Bytes → Option Session → Answer
answer_to now id none = err (session_not_found id)
answer_to now id (some s) = ok (touch now s)

unfoldable pub perform_map : ℕ → Request → Registry → Registry × List Answer
perform_map ttl (add_session s) m = (λ k. if s.id == k then some s else m k, [])
perform_map ttl (read_session now id) m =
    (λ k. if id == k then touched now (m id) else m k, answer_to now id (m id) ∷ [])
perform_map ttl (drop_session id) m = (λ k. if id == k then none else m k, [])
perform_map ttl (tick now) m = (λ k. if_fresh ttl now (m k), [])

unfoldable pub run_map : ℕ → List Request → Registry → Registry × List Answer
unfolding perform_map
run_map ttl [] m = (m, [])
run_map ttl (r ∷ rs) m =
    let (next, answers) = perform_map ttl r m in
    let (last, more) = run_map ttl rs next in (last, answers ++ more)

-- The store holds what the map says.
abbrev pub Refines : Store → Registry → Type 0
Refines st m = IsConsistent st × ((k : Bytes) → find st k ≡ m k)

get-answer : (now : ℕ) (st : Store) (id : Bytes) → (get now st id).1 ≡ answer_to now id (find st id)
unfolding get
get-answer now st id = elim (Option-cases (lookup id st.sessions)) [
  | inl e ↦ ground arith
  | inr (s, e) ↦ ground arith
]

find-delete :
    (st : Store) (id k : Bytes) → find (delete st id) k ≡ (if id == k then none else find st k)
unfolding delete
find-delete st id k = lookup-remove id k st.sessions

perform-Refines :
    (ttl : ℕ) (r : Request) (st : Store) (m : Registry)
    → Refines st m
    → Refines (perform ttl r st).0 (perform_map ttl r m).0
      × ((perform ttl r st).1 ≡ (perform_map ttl r m).1)
unfolding perform perform_map
perform-Refines ttl (add_session s) st m (h, same) = (
  (
    set-IsConsistent st s h,
    λ k. find-set st s k ∙ ap (λ o. if s.id == k then some s else o) (same k),
  ),
  refl,
)
perform-Refines ttl (read_session now id) st m (h, same) = (
  (
    get-IsConsistent now st id h,
    λ k.
        find-get_all now st id k
        ∙ ap (λ o. if id == k then touched now o else find st k) (same id)
        ∙ ap (λ o. if id == k then touched now (m id) else o) (same k),
  ),
  ap (λ a. a ∷ []) (get-answer now st id ∙ ap (answer_to now id) (same id)),
)
perform-Refines ttl (drop_session id) st m (h, same) = (
  (
    delete-IsConsistent st id h,
    λ k. find-delete st id k ∙ ap (λ o. if id == k then none else o) (same k),
  ),
  refl,
)
perform-Refines ttl (tick now) st m (h, same) = (
  (
    evict-IsConsistent ttl now st h,
    λ k. find-evict ttl now st k h ∙ ap (if_fresh ttl now) (same k),
  ),
  refl,
)

new_store-find : (k : Bytes) → find new_store k ≡ none
unfolding lookup
new_store-find k = refl

run-Refines :
    (ttl : ℕ) (rs : List Request) (st : Store) (m : Registry)
    → Refines st m
    → Refines (run ttl rs st).0 (run_map ttl rs m).0 × ((run ttl rs st).1 ≡ (run_map ttl rs m).1)
unfolding run run_map
run-Refines ttl [] st m h = (h, refl)
run-Refines ttl (r ∷ rs) st m h =
    let (one, first) = perform-Refines ttl r st m h in
    let (all, more) = run-Refines ttl rs (perform ttl r st).0 (perform_map ttl r m).0 one in
    (all, rw (first, more) refl)

-- The registry that starts empty answers any sequence of requests as the map does, and ends with the
-- sessions that the map has.
pub run-run_map :
    (ttl : ℕ) (rs : List Request)
    → ((run ttl rs new_store).1 ≡ (run_map ttl rs (λ k. none)).1)
      × ((k : Bytes) → find (run ttl rs new_store).0 k ≡ (run_map ttl rs (λ k. none)).0 k)
run-run_map ttl rs =
    let (all, same) =
      run-Refines ttl rs new_store (λ k. none) (new_store-IsConsistent, λ k. new_store-find k) in
    (same, all.1)
