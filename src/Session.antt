-- ===== src/Session.antt =====
-- internal/session/session.go and adaptation.go: the state of one walkthrough. `Graph` and the
-- graph of `Walker` are one object, so the session has the walker's.
pub mod Store
use codewalker.Prelude.{ℕ, Bytes, Bool, List, [], ◌∷◌, Option, none, some, ◌%◌, ◌^◌}
use codewalker.Prelude.Assoc.{Assoc, lookup, put}
use codewalker.Proto.{GlossaryTerm, StepSummary, SessionKind, ExperienceLevel}
use codewalker.Graph.{Graph}
use codewalker.Graph.Walker.{Walker, new_walker}

unfoldable pub effective_level : ExperienceLevel → ℕ
effective_level ExperienceLevel.junior = 3
effective_level ExperienceLevel.mid = 6
effective_level ExperienceLevel.senior = 9
effective_level ExperienceLevel.unspecified = 5

pub record CachedStep : Type 0 where
  pub narration_tokens : List Bytes
  pub summary : Option StepSummary

pub record Session : Type 0 where
  pub id : Bytes
  pub walker : Walker
  pub eff_level : ℕ
  pub language : Bytes
  pub kind : SessionKind
  pub glossary : Assoc GlossaryTerm
  pub omit_raw_source : Bool
  pub source : Bytes
  pub file_path : Bytes
  pub repo_path : Bytes
  pub ref : Bytes
  pub last_accessed : ℕ
  pub narration_cache : Assoc CachedStep

-- `session.New`; `now` is what `time.Now` returns.
unfoldable pub new_session :
    ℕ → Bytes → Graph → ℕ → Bytes → Bool → Bytes → Bytes → Bytes → Bytes → Session
new_session now id g level language omit_raw src file_path repo_path ref = record {
  id = id;
  walker = new_walker g;
  eff_level = level;
  language = language;
  kind = SessionKind.unspecified;
  glossary = [];
  omit_raw_source = omit_raw;
  source = src;
  file_path = file_path;
  repo_path = repo_path;
  ref = ref;
  last_accessed = now;
  narration_cache = [];
}

unfoldable pub cached_narration : Session → Bytes → Option CachedStep
unfolding lookup
cached_narration s step_id = lookup step_id s.narration_cache

unfoldable pub cache_narration : Session → Bytes → CachedStep → Session
unfolding put
cache_narration s step_id entry = record s { narration_cache = put step_id entry s.narration_cache }

unfoldable pub add_glossary_term : Session → GlossaryTerm → Session
unfolding put
add_glossary_term s t = record s { glossary = put t.term t s.glossary }

unfoldable pub get_glossary_term : Session → Bytes → Option GlossaryTerm
unfolding lookup
get_glossary_term s term = lookup term s.glossary

unfoldable pub touch : ℕ → Session → Session
touch now s = record s { last_accessed = now }

pub record SessionSummary : Type 0 where
  pub session_id : Bytes
  pub repo_path : Bytes
  pub file_path : Bytes
  pub ref : Bytes
  pub language : Bytes
  pub current_step_id : Bytes
  pub effective_level : ℕ
  pub kind : SessionKind

unfoldable pub summary : Session → SessionSummary
summary s = record {
  session_id = s.id;
  repo_path = s.repo_path;
  file_path = s.file_path;
  ref = s.ref;
  language = s.language;
  current_step_id = s.walker.current;
  effective_level = s.eff_level % 2 ^ 32;
  kind = s.kind;
}
