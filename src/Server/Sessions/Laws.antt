-- ===== src/Server/Sessions/Laws.antt =====
-- server/session_mgmt.go: `CloseSession` against the registry.
use codewalker.Prelude.{
  ℕ, Bytes, false, [], Option, none, some, Result, ok, err, ◌≡◌, refl, ◌∙◌, inl, inr, arith, ◌==◌,
  eq_iff, Option-cases, if◌then◌else◌,
}
use codewalker.Prelude.Assoc.{put, lookup-remove, lookup-put}
use codewalker.Session.{Session, touch}
use codewalker.Session.Store.{Store, get, delete}
use codewalker.Session.Store.Laws.{find}
use codewalker.Server.Sessions.{close_session, Code, not_found}

find-delete :
    (st : Store) (id k : Bytes) → find (delete st id) k ≡ (if id == k then none else find st k)
unfolding delete
find-delete st id k = lookup-remove id k st.sessions

-- The answer for what the registry holds under the ID.
abbrev pub closes : Option Session → Result Code (Unit {0})
closes none = err not_found
closes (some s) = ok tt

-- Closing a session removes it and no other, and fails exactly if there is no such session.
pub close_session-find :
    (now : ℕ) (st : Store) (id k : Bytes)
    → (id == []) ≡ false
    → (find (close_session now st id).0 k ≡ (if id == k then none else find st k))
      × ((close_session now st id).1 ≡ closes (find st id))
unfolding close_session get
close_session-find now st id k n = elim (Option-cases (find st id)) [
  | inl e ↦ rw (n, e) (ground (arith, eq_iff id k), refl)
  | inr (s, e) ↦
      let touched : Store = record { sessions = put id (touch now s) st.sessions } in
      rw (n, e)
        (find-delete touched id k ∙ ground (arith, lookup-put id k (touch now s) st.sessions), refl)
]
