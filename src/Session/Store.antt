-- ===== src/Session/Store.antt =====
-- internal/session/store.go: the registry of sessions. Times are the nanoseconds of one clock; an
-- operation that reads the clock takes its reading.
pub mod Laws
pub mod Refinement
use codewalker.Prelude.{
  ℕ, ◌+◌, Bytes, List, [], ◌∷◌, map, Option, none, some, Result, ok, err, length, ltb,
  if◌then◌else◌,
}
use codewalker.Prelude.Assoc.{Assoc, lookup, put, remove}
use codewalker.Session.{Session, touch}

pub record Store : Type 0 where
  pub sessions : Assoc Session

abbrev pub new_store : Store
new_store = record { sessions = [] }

unfoldable pub set : Store → Session → Store
unfolding put
set st s = record { sessions = put s.id s st.sessions }

pub data StoreError : Type 0 where
  session_not_found : Bytes → StoreError

-- `Get` returns the session and resets its clock, in the store too: they are one object.
get_found : ℕ → Store → Bytes → Option Session → Store × Result StoreError Session
unfolding touch put
get_found now st id none = (st, err (session_not_found id))
get_found now st id (some s) =
    (record { sessions = put id (touch now s) st.sessions }, ok (touch now s))

unfoldable pub get : ℕ → Store → Bytes → Store × Result StoreError Session
unfolding get_found lookup
get now st id = get_found now st id (lookup id st.sessions)

unfoldable pub delete : Store → Bytes → Store
unfolding remove
delete st id = record { sessions = remove id st.sessions }

unfoldable pub all : Store → List Session
all st = map (λ (e : Bytes × Session). e.1) st.sessions

unfoldable pub len : Store → ℕ
len st = length st.sessions

-- The loop of `evict`: a session whose last access is before `now - ttl` is deleted.
evict_from : ℕ → ℕ → Assoc Session → Assoc Session
evict_from ttl now [] = []
evict_from ttl now ((id, s) ∷ rest) =
    let kept = evict_from ttl now rest in
    if ltb (s.last_accessed + ttl) now then kept else (id, s) ∷ kept

unfoldable pub evict : ℕ → ℕ → Store → Store
unfolding evict_from
evict ttl now st = record { sessions = evict_from ttl now st.sessions }

-- The loop of `StartEviction`, over the readings of the clock at its ticks.
unfoldable pub run_eviction : ℕ → List ℕ → Store → Store
unfolding evict
run_eviction ttl [] st = st
run_eviction ttl (now ∷ ticks) st = run_eviction ttl ticks (evict ttl now st)
