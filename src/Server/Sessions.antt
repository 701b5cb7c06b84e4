-- ===== src/Server/Sessions.antt =====
-- server/session_mgmt.go: `CloseSession` and `ListSessions`.
pub mod Laws
use codewalker.Prelude.{ℕ, Bytes, [], List, map, Result, ok, err, ◌==◌, if◌then◌else◌}
use codewalker.Session.{Session, SessionSummary, summary}
use codewalker.Session.Store
use codewalker.Session.Store.{Store}
use codewalker.Server.Stream.{Code, invalid_argument, not_found}

close_found : Bytes → Store × Result Store.StoreError Session → Store × Result Code (Unit {0})
unfolding Store.delete
close_found id (st, err e) = (st, err not_found)
close_found id (st, ok s) = (Store.delete st id, ok tt)

unfoldable pub close_session : ℕ → Store → Bytes → Store × Result Code (Unit {0})
unfolding close_found Store.get ◌==◌
close_session now st id =
    if id == [] then (st, err invalid_argument) else close_found id (Store.get now st id)

unfoldable pub list_sessions : Store → List SessionSummary
unfolding Store.all summary
list_sessions st = map summary (Store.all st)
