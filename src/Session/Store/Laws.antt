-- ===== src/Session/Store/Laws.antt =====
-- What the registry promises: look-ups, deletions, and which sessions an eviction removes.
use codewalker.Prelude.{
  ℕ, ◌+◌, Bytes, [], ◌∷◌, Option, none, some, ◌≡◌, refl, ◌∙◌, arith, ltb, if◌then◌else◌, ◌==◌,
  eq_iff, eq_refl, Bool-cases, inl, inr, ◌<◌, List, ok, All, err, ◌≤◌, Option-cases,
}
use codewalker.Prelude.Assoc.{Assoc, lookup, put, remove, lookup-remove, lookup-put}
use codewalker.Session.{Session, touch}
use codewalker.Session.Store.{
  Store, evict_from, set, run_eviction, delete, get, evict, session_not_found,
}

-- The session that the store has under an ID.
abbrev pub find : Store → Bytes → Option Session
find st id = lookup id st.sessions

-- A Go map has each key once.
abbrev pub NodupKeys : Assoc Session → Type 0
NodupKeys [] = Unit
NodupKeys ((k, s) ∷ m) = (lookup k m ≡ none) × NodupKeys m

lookup_later :
    (k j : Bytes) (s : Session) (m : Assoc Session)
    → lookup j ((k, s) ∷ m) ≡ none
    → lookup j m ≡ none
unfolding lookup
lookup_later k j s m h = ground arith

remove-NodupKeys : (k : Bytes) (m : Assoc Session) → NodupKeys m → NodupKeys (remove k m)
unfolding remove
remove-NodupKeys k [] h = tt
remove-NodupKeys k ((j, s) ∷ m) (hj, h) = elim (Bool-cases (j == k)) [
  | inl e ↦ rw e (remove-NodupKeys k m h)
  | inr e ↦
      rw e (lookup-remove k j m ∙ ground (arith, eq_iff k j, eq_iff j k), remove-NodupKeys k m h)
]

put-NodupKeys : (k : Bytes) (s : Session) (m : Assoc Session) → NodupKeys m → NodupKeys (put k s m)
unfolding put
put-NodupKeys k s m h = (lookup-remove k k m ∙ rw (eq_refl k), remove-NodupKeys k m h)

lookup-evict_from_absent :
    (ttl now : ℕ) (k : Bytes) (m : Assoc Session)
    → lookup k m ≡ none
    → lookup k (evict_from ttl now m) ≡ none
unfolding evict_from lookup
lookup-evict_from_absent ttl now k [] h = refl
lookup-evict_from_absent ttl now k ((j, s) ∷ m) h =
    ground (arith, lookup-evict_from_absent ttl now k m)

evict_from-NodupKeys :
    (ttl now : ℕ) (m : Assoc Session) → NodupKeys m → NodupKeys (evict_from ttl now m)
unfolding evict_from
evict_from-NodupKeys ttl now [] h = tt
evict_from-NodupKeys ttl now ((j, s) ∷ m) (hj, h) =
    elim (Bool-cases (ltb (s.last_accessed + ttl) now)) [
      | inl e ↦ rw e (evict_from-NodupKeys ttl now m h)
      | inr e ↦ rw e (lookup-evict_from_absent ttl now j m hj, evict_from-NodupKeys ttl now m h)
    ]

-- What an eviction leaves of a session.
abbrev pub if_fresh : ℕ → ℕ → Option Session → Option Session
if_fresh ttl now none = none
if_fresh ttl now (some s) = if ltb (s.last_accessed + ttl) now then none else some s

lookup-evict_from :
    (ttl now : ℕ) (k : Bytes) (m : Assoc Session)
    → NodupKeys m
    → lookup k (evict_from ttl now m) ≡ if_fresh ttl now (lookup k m)
unfolding evict_from lookup
lookup-evict_from ttl now k [] h = refl
lookup-evict_from ttl now k ((j, s) ∷ m) (hj, h) = ground (
  arith,
  eq_iff j k,
  lookup-evict_from ttl now k m h,
  lookup-evict_from_absent ttl now j m hj,
  lookup-evict_from_absent ttl now k m,
)

-- The map has each key once, and each session stands under its own ID.
pub record IsConsistent (st : Store) : Type 0 where
  pub keys : NodupKeys st.sessions
  pub ids : (k : Bytes) (s : Session) → find st k ≡ some s → s.id ≡ k

pub new_store-IsConsistent : IsConsistent (record { sessions = [] })
unfolding lookup
new_store-IsConsistent = record { keys = tt; ids = λ k s h. absurd (ground arith) }

pub set-IsConsistent : (st : Store) (s : Session) → IsConsistent st → IsConsistent (set st s)
unfolding set
set-IsConsistent st s h = record {
  keys = put-NodupKeys s.id s st.sessions h.keys;
  ids = λ k t e. ground (arith, lookup-put s.id k s st.sessions, eq_iff s.id k, h.ids k t);
}

pub get-IsConsistent :
    (now : ℕ) (st : Store) (id : Bytes) → IsConsistent st → IsConsistent (get now st id).0
unfolding get touch
get-IsConsistent now st id h = elim (Option-cases (lookup id st.sessions)) [
  | inl e ↦ rw (e, get) h
  | inr (s, e) ↦
      rw (e, get)
        (record {
          keys = put-NodupKeys id (touch now s) st.sessions h.keys;
          ids = λ k t f. ground (
            arith,
            lookup-put id k (touch now s) st.sessions,
            eq_iff id k,
            h.ids k t,
            h.ids id s e,
          );
        })
]

pub delete-IsConsistent : (st : Store) (id : Bytes) → IsConsistent st → IsConsistent (delete st id)
unfolding delete
delete-IsConsistent st id h = record {
  keys = remove-NodupKeys id st.sessions h.keys;
  ids = λ k t e. ground (arith, lookup-remove id k st.sessions, h.ids k t);
}

-- An eviction keeps a session exactly if its last access is not longer ago than `ttl`, and does not
-- change the sessions that it keeps.
pub find-evict :
    (ttl now : ℕ) (st : Store) (id : Bytes)
    → IsConsistent st
    → find (evict ttl now st) id ≡ if_fresh ttl now (find st id)
unfolding evict
find-evict ttl now st id h = lookup-evict_from ttl now id st.sessions h.keys

pub evict-IsConsistent :
    (ttl now : ℕ) (st : Store) → IsConsistent st → IsConsistent (evict ttl now st)
evict-IsConsistent ttl now st h = record {
  keys = unfold evict in evict_from-NodupKeys ttl now st.sessions h.keys;
  ids = λ k s e. ground (arith, find-evict ttl now st k h, h.ids k s);
}

survives :
    (ttl : ℕ) (ticks : List ℕ) (st : Store) (id : Bytes) (s : Session)
    → IsConsistent st
    → find st id ≡ some s
    → All (λ now. now ≤ s.last_accessed + ttl) ticks
    → find (run_eviction ttl ticks st) id ≡ some s
unfolding run_eviction
survives ttl [] st id s h e a = e
survives ttl (now ∷ ticks) st id s h e (fits, a) =
    survives ttl ticks (evict ttl now st) id s (evict-IsConsistent ttl now st h)
      (find-evict ttl now st id h ∙ ground arith) a

pub find-get :
    (now : ℕ) (st : Store) (id : Bytes) {s : Session}
    → (get now st id).1 ≡ ok s
    → (find (get now st id).0 id ≡ some s) × (s.last_accessed ≡ now)
unfolding get touch
find-get now st id {s} h = elim (Option-cases (lookup id st.sessions)) [
  | inl e ↦ absurd (ground arith)
  | inr (t, e) ↦
      (ground (arith, lookup-put id id (touch now t) st.sessions, eq_refl id), ground arith)
]

-- A session that a request has read is not evicted by any tick within `ttl` of that request, however
-- long ago it was read before; a read at `later` finds it.
pub get-run_eviction :
    (ttl now later : ℕ) (ticks : List ℕ) (st : Store) (id : Bytes) {s : Session}
    → IsConsistent st
    → (get now st id).1 ≡ ok s
    → All (λ tick. tick ≤ now + ttl) ticks
    → (get later (run_eviction ttl ticks (get now st id).0) id).1 ≡ ok (touch later s)
get-run_eviction ttl now later ticks st id {s} h e a =
    let (found, fresh) = find-get now st id e in
    let kept =
      survives ttl ticks (get now st id).0 id s (get-IsConsistent now st id h) found (rw fresh a) in
    unfold get in rw kept

-- A session that nobody has read for longer than `ttl` at a tick is gone after it.
pub get-evict_idle :
    (ttl now later : ℕ) (st : Store) (id : Bytes) (s : Session)
    → IsConsistent st
    → find st id ≡ some s
    → s.last_accessed + ttl < now
    → (get later (evict ttl now st) id).1 ≡ err (session_not_found id)
get-evict_idle ttl now later st id s h e idle =
    let gone : find (evict ttl now st) id ≡ none = find-evict ttl now st id h ∙ ground arith in
    unfold get in rw gone

-- After `Set`, `Get` returns the session with its clock reset, and every other ID has what it had.
pub get-set :
    (now : ℕ) (st : Store) (s : Session) (id : Bytes)
    → (get now (set st s) id).1 ≡ (if s.id == id then ok (touch now s) else (get now st id).1)
get-set now st s id = elim (Bool-cases (s.id == id)) [
  | inl e ↦
      let p : find (set st s) id ≡ some s =
        unfold set in (lookup-put s.id id s st.sessions ∙ rw e refl) in
      rw e (unfold get in rw p)
  | inr e ↦
      let p : find (set st s) id ≡ find st id =
        unfold set in (lookup-put s.id id s st.sessions ∙ rw e refl) in
      rw e (
        unfold get in
        elim (Option-cases (find st id)) [ inl q ↦ rw (p, q) | inr (t, q) ↦ rw (p, q) ])
]

-- After `Delete`, `Get` fails for that ID, and every other ID has what it had.
pub get-delete :
    (now : ℕ) (st : Store) (id other : Bytes)
    → (get now (delete st id) other).1
      ≡ (if id == other then err (session_not_found other) else (get now st other).1)
get-delete now st id other = elim (Bool-cases (id == other)) [
  | inl e ↦
      let p : find (delete st id) other ≡ none =
        unfold delete in (lookup-remove id other st.sessions ∙ rw e refl) in
      rw e (unfold get in rw p)
  | inr e ↦
      let p : find (delete st id) other ≡ find st other =
        unfold delete in (lookup-remove id other st.sessions ∙ rw e refl) in
      rw e (
        unfold get in
        elim (Option-cases (find st other)) [ inl q ↦ rw (p, q) | inr (t, q) ↦ rw (p, q) ])
]

pub find-set :
    (st : Store) (s : Session) (k : Bytes)
    → find (set st s) k ≡ (if s.id == k then some s else find st k)
unfolding set
find-set st s k = lookup-put s.id k s st.sessions

abbrev pub touched : ℕ → Option Session → Option Session
touched now none = none
touched now (some s) = some (touch now s)

pub find-get_all :
    (now : ℕ) (st : Store) (id k : Bytes)
    → find (get now st id).0 k ≡ (if id == k then touched now (find st id) else find st k)
unfolding get
find-get_all now st id k = elim (Option-cases (lookup id st.sessions)) [
  | inl e ↦ ground (arith, eq_iff id k)
  | inr (s, e) ↦ ground (arith, lookup-put id k (touch now s) st.sessions)
]
