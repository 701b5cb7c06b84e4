-- ===== src/Process/Config.antt =====
-- config/config.go: `Load`. The environment gives the empty text for a variable that is not set; what
-- `time.ParseDuration` makes of a text is a parameter.
use codewalker.Prelude.{
  ℕ, zero, suc, ◌*◌, ◌<◌, Bytes, bytes, true, false, [], Option, none, some, ◌==◌, if◌then◌else◌,
  arith, Bool,
}
use codewalker.Prelude.Int.{ℤ, pos, negsuc}

pub record Config : Type 0 where
  pub anthropic_api_key : Bytes
  pub port : Bytes
  pub repo_root : Bytes
  pub log_level : Bytes
  pub llm_provider : Bytes
  pub session_ttl : ℤ
  pub eviction_interval : ℤ

-- `os.Getenv` and `time.ParseDuration`
pub record Environment : Type 0 where
  pub getenv : Bytes → Bytes
  pub duration : Bytes → Option ℤ

unfoldable pub env_or : Environment → Bytes → Bytes → Bytes
unfolding ◌==◌
env_or env key default = let v = env.getenv key in if v == [] then default else v

-- A duration that is not positive is not taken.
unfoldable pub positive_or : Option ℤ → ℤ → ℤ
positive_or (some (pos (suc n))) default = pos (suc n)
positive_or _ default = default

unfoldable pub parse_duration : Environment → Bytes → ℤ → ℤ
unfolding ◌==◌ positive_or
parse_duration env key default =
    let v = env.getenv key in if v == [] then default else positive_or (env.duration v) default

abbrev pub minute : ℕ
minute = 60 * 1000000000

unfoldable pub load : Environment → Config
unfolding env_or parse_duration
load env = record {
  anthropic_api_key = env.getenv (bytes "ANTHROPIC_API_KEY");
  port = env_or env (bytes "CODEWALKER_PORT") (bytes "50051");
  repo_root = env_or env (bytes "CODEWALKER_REPO_ROOT") (bytes "/repos/target");
  log_level = env_or env (bytes "CODEWALKER_LOG_LEVEL") (bytes "info");
  llm_provider = env_or env (bytes "CODEWALKER_LLM_PROVIDER") (bytes "anthropic");
  session_ttl = parse_duration env (bytes "CODEWALKER_SESSION_TTL") (pos (120 * minute));
  eviction_interval = parse_duration env (bytes "CODEWALKER_EVICTION_INTERVAL") (pos (5 * minute));
}

-- A ticker wants a positive interval.
abbrev pub IsPositive : ℤ → Type 0
IsPositive (pos n) = 0 < n
IsPositive (negsuc n) = ⊥

positive_or-IsPositive :
    (o : Option ℤ) (default : ℤ) → IsPositive default → IsPositive (positive_or o default)
unfolding positive_or
positive_or-IsPositive none default h = h
positive_or-IsPositive (some (pos zero)) default h = h
positive_or-IsPositive (some (pos (suc n))) default h = omega arith
positive_or-IsPositive (some (negsuc n)) default h = h

parse_duration-IsPositive :
    (env : Environment) (key : Bytes) (default : ℤ)
    → IsPositive default
    → IsPositive (parse_duration env key default)
unfolding parse_duration
parse_duration-IsPositive env key default h =
    either (env.getenv key == []) _ _ h
      (positive_or-IsPositive (env.duration (env.getenv key)) default h)
  where
    either : (b : Bool) (x y : ℤ) → IsPositive x → IsPositive y → IsPositive (if b then x else y)
    either true _ _ hx hy = hx
    either false _ _ hx hy = hy

-- The durations of a configuration that was loaded are positive.
pub load-IsPositive :
    (env : Environment)
    → IsPositive (load env).session_ttl × IsPositive (load env).eviction_interval
unfolding load
load-IsPositive env = (
  parse_duration-IsPositive env (bytes "CODEWALKER_SESSION_TTL") (pos (120 * minute)) (omega arith),
  parse_duration-IsPositive env (bytes "CODEWALKER_EVICTION_INTERVAL") (pos (5 * minute))
      (omega arith),
)
