-- ===== src/Tests/Lives.antt =====
-- The registry against its contract, a narration that ends, and the start of the process.
use codewalker.Prelude.{Bytes, bytes, List, [], ◌∷◌, none, some, ◌≡◌, ◌≢◌, refl, All}
use codewalker.Prelude.Int.{pos}
use codewalker.Session.Store.{new_store}
use codewalker.Session.Store.Laws.{find}
use codewalker.Session.Store.Refinement.{
  Request, add_session, read_session, drop_session, tick, run, run_map, run-run_map,
}
use codewalker.Server.Navigate.{waiting, drain, start_drain}
use codewalker.Server.Navigate.Termination.{drain-ends}
use codewalker.Process.Config.{Environment, load}
use codewalker.Process.Life
use codewalker.Process.Life.{StartsPositive, signalled, run-StartsPositive}
use codewalker.Tests.Sessions.{a_session, s1, a_stream, told, arrivals, after_told}

abbrev requests : List Request
requests =
    add_session a_session
    ∷ read_session 200 s1
    ∷ tick 500
    ∷ read_session 600 s1
    ∷ drop_session s1
    ∷ []

run-run_map_example :
    ((run 60 requests new_store).1 ≡ (run_map 60 requests (λ k. none)).1)
    × ((k : Bytes) → find (run 60 requests new_store).0 k ≡ (run_map 60 requests (λ k. none)).0 k)
run-run_map_example = run-run_map 60 requests

drain-ends_example : drain (start_drain a_stream told) arrivals ≢ waiting after_told
unfolding start_drain
drain-ends_example = drain-ends (start_drain a_stream told) arrivals refl refl after_told

-- A time to live that is not positive.
abbrev environment : Environment
environment = record { getenv = λ key. bytes "0s"; duration = λ text. some (pos 0) }

run-StartsPositive_example :
    All StartsPositive (Life.run (load environment) (λ addr. none) signalled).0
run-StartsPositive_example = run-StartsPositive environment (λ addr. none) signalled
