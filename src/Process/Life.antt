-- ===== src/Process/Life.antt =====
-- cmd/codewalker/main.go: `run` and `setupLogging`; server/version.go; server/middleware/recovery.go.
use codewalker.Prelude.{
  ◌%◌, ◌^◌, Bytes, bytes, List, [], ◌∷◌, ◌++◌, Option, none, some, Result, ok, err, ◌==◌,
  if◌then◌else◌, All, Option-cases, inl, inr, ℕ,
}
use codewalker.Prelude.Int.{ℤ}
use codewalker.Server.Stream.{Code, internal}
use codewalker.Process.Config.{Config, Environment, load, IsPositive, load-IsPositive}

-- What `run` does to the world, in order.
pub data Effect : Type 0 where
  start_eviction : ℤ → ℤ → Effect
  listen : Bytes → Effect
  serve : Effect
  graceful_stop : Effect
  cancel : Effect

-- What the `select` receives first: a signal, or the error of the server.
pub data Stop : Type 0 where
  signalled : Stop
  serve_failed : Bytes → Stop

pub data RunError : Type 0 where
  no_api_key : RunError
  unknown_provider : Bytes → RunError
  not_listening : Bytes → Bytes → RunError
  not_serving : Bytes → RunError

unfoldable pub check_provider : Config → Option RunError
unfolding ◌==◌
check_provider cfg =
    if cfg.llm_provider == bytes "anthropic"
    then if cfg.anthropic_api_key == [] then some no_api_key else none
    else some (unknown_provider cfg.llm_provider)

-- The `select`, with the deferred `cancel` of the function at the end.
unfoldable pub wait : Stop → List Effect × Result RunError (Unit {0})
wait signalled = (graceful_stop ∷ cancel ∷ cancel ∷ [], ok tt)
wait (serve_failed e) = (cancel ∷ [], err (not_serving e))

-- From the creation of the context on; `listening` is the error of `net.Listen`, if it fails.
unfoldable pub run_server :
    Config → (Bytes → Option Bytes) → Stop → List Effect × Result RunError (Unit {0})
unfolding wait
run_server cfg listening stop =
    let addr = bytes ":" ++ cfg.port in
    let started = start_eviction cfg.session_ttl cfg.eviction_interval in
    elim (listening addr) [
      | some e ↦ (started ∷ listen addr ∷ cancel ∷ [], err (not_listening addr e))
      | none ↦
          let (effects, result) = wait stop in (started ∷ listen addr ∷ serve ∷ effects, result)
    ]

unfoldable pub run :
    Config → (Bytes → Option Bytes) → Stop → List Effect × Result RunError (Unit {0})
unfolding check_provider run_server
run cfg listening stop = elim (check_provider cfg) [
  | some e ↦ ([], err e)
  | none ↦ run_server cfg listening stop
]

pub data Level : Type 0 where
  debug info warn error : Level

unfoldable pub setup_logging : Bytes → Level
unfolding ◌==◌
setup_logging level =
    if level == bytes "debug"
    then debug
    else if level == bytes "warn"
    then warn
    else if level == bytes "error"
    then error
    else info

-- `GetVersion`, where `major` is what `strconv.ParseUint` gives for the string of the build, or 0.
pub record Version : Type 0 where
  pub version : Bytes
  pub proto_major : ℕ
  pub min_compatible_proto_major : ℕ

unfoldable pub get_version : Bytes → ℕ → Version
get_version version major = record {
  version = version;
  proto_major = major % 2 ^ 32;
  min_compatible_proto_major = 1;
}

-- A handler that panics (`none`) fails with the code Internal; any other result is passed on.
unfoldable pub recovered {ℓ} : {A : Type ℓ} → Option (Result Code A) → Result Code A
recovered none = err internal
recovered (some r) = r

-- An eviction is started with positive durations.
abbrev pub StartsPositive : Effect → Type 0
StartsPositive (start_eviction ttl interval) = IsPositive ttl × IsPositive interval
StartsPositive _ = Unit

wait-StartsPositive : (stop : Stop) → All StartsPositive (wait stop).0
unfolding wait
wait-StartsPositive signalled = (tt, (tt, (tt, tt)))
wait-StartsPositive (serve_failed e) = (tt, tt)

run_server-StartsPositive :
    (cfg : Config) (listening : Bytes → Option Bytes) (stop : Stop)
    → IsPositive cfg.session_ttl
    → IsPositive cfg.eviction_interval
    → All StartsPositive (run_server cfg listening stop).0
unfolding run_server
run_server-StartsPositive cfg listening stop ttl interval =
    elim (Option-cases (listening (bytes ":" ++ cfg.port))) [
      | inl e ↦ rw (e, run_server) ((ttl, interval), (tt, (tt, wait-StartsPositive stop)))
      | inr (failure, e) ↦ rw (e, run_server) ((ttl, interval), (tt, (tt, tt)))
    ]

-- Whatever the environment holds, the server starts the eviction of sessions only with a positive
-- time to live and a positive interval, which the ticker of the eviction wants.
pub run-StartsPositive :
    (env : Environment) (listening : Bytes → Option Bytes) (stop : Stop)
    → All StartsPositive (run (load env) listening stop).0
unfolding run
run-StartsPositive env listening stop = elim (Option-cases (check_provider (load env))) [
  | inl e ↦
      let (ttl, interval) = load-IsPositive env in
      rw (e, run) (run_server-StartsPositive (load env) listening stop ttl interval)
  | inr (failure, e) ↦ rw (e, run) tt
]
