-- ===== src/Server/OpenSession.antt =====
-- server/open_session.go: `OpenSession`. The repository, the parser of the language and the model are
-- the record `Sources`; the random session ID and the clock are arguments.
pub mod Laws
use codewalker.Prelude.{
  ℕ, Bytes, bytes, Bool, List, [], ◌∷◌, Option, none, some, Result, ok, err, map, ◌==◌, ◌%◌, ◌^◌,
  if◌then◌else◌,
}
use codewalker.Proto.{GlossaryTerm, TermKind, ExperienceLevel}
use codewalker.Graph.{Graph, len, all_steps}
use codewalker.Graph.Builder.{Node, build}
use codewalker.Session.{Session, new_session, add_glossary_term, effective_level}
use codewalker.Session.Store
use codewalker.Session.Store.{Store}
use codewalker.Server.Stream.{Code, Stream, then_send, invalid_argument, not_found}
use codewalker.Server.OpenReview.{SessionEvent, progress, ready, emit, then_with, Opened}

unfoldable pub term_kind_from_string : Bytes → TermKind
unfolding ◌==◌
term_kind_from_string s =
    if s == bytes "LANGUAGE"
    then TermKind.language
    else if s == bytes "PATTERN"
    then TermKind.pattern_term
    else if s == bytes "DOMAIN"
    then TermKind.domain
    else if s == bytes "LIBRARY"
    then TermKind.library
    else TermKind.unspecified

pub record GlossaryRequest : Type 0 where
  pub code : Bytes
  pub language : Bytes
  pub level : ℕ

pub record Candidate : Type 0 where
  pub term : Bytes
  pub kind : Bytes

-- `parse` gives the nodes and the name of the language. The error of `extract_glossary_terms` is
-- ignored: it then gives no term.
pub record Sources : Type 0 where
  pub open_repo : Bytes → Bool
  pub read_file : Bytes → Bytes → Bytes → Option Bytes
  pub parse : Bytes → Bytes → Option (List Node × Bytes)
  pub extract_glossary_terms : GlossaryRequest → List Candidate

pub record OpenSessionRequest : Type 0 where
  pub repo_path : Bytes
  pub file_path : Bytes
  pub ref : Bytes
  pub symbol : Bytes
  pub experience_level : ExperienceLevel
  pub omit_raw_source : Bool

unfoldable pub glossary_term : Bytes → Candidate → GlossaryTerm
unfolding term_kind_from_string
glossary_term entry_id c = record {
  term = c.term;
  definition = [];
  step_id = entry_id;
  kind = term_kind_from_string c.kind;
}

unfoldable pub add_terms : Session → List GlossaryTerm → Session
unfolding add_glossary_term
add_terms s [] = s
add_terms s (t ∷ ts) = add_terms (add_glossary_term s t) ts

-- What is known when the session is created.
pub record Parsed : Type 0 where
  pub source : Bytes
  pub nodes : List Node
  pub language : Bytes
  pub repo_path : Bytes

or_fail {ℓ} : {A : Type ℓ} → Code → Option A → Result Code A
or_fail c none = err c
or_fail c (some a) = ok a

opened_repo : Sources → Bytes → Result Code (Unit {0})
opened_repo s path = if s.open_repo path then ok tt else err not_found

abbrev Run : Type 0
Run = Stream SessionEvent × Result Code Parsed

-- The progress of the steps 3, 4 and 5.
creating : Parsed → Stream SessionEvent → Run
unfolding emit
creating p stream =
    then_send (emit stream (progress (bytes "creating session") 85)) (λ stream. (stream, ok p))

extracting : Parsed → Stream SessionEvent → Run
unfolding emit creating
extracting p stream =
    then_send (emit stream (progress (bytes "extracting glossary") 65)) (creating p)

building : Parsed → Stream SessionEvent → Run
unfolding emit extracting
building p stream =
    then_send (emit stream (progress (bytes "building step graph") 40)) (extracting p)

-- The step 2, of a file that was read.
abbrev parsed_as : Bytes → Bytes → List Node × Bytes → Parsed
parsed_as repo src p = record { source = src; nodes = p.0; language = p.1; repo_path = repo }

parse_source : Sources → Bytes → OpenSessionRequest → Bytes → Stream SessionEvent → Run
unfolding building or_fail
parse_source sources repo req src stream =
    then_with stream (or_fail invalid_argument (sources.parse src req.file_path))
      (λ p. building (parsed_as repo src p) stream)

parsing : Sources → Bytes → OpenSessionRequest → Stream SessionEvent → Bytes → Run
unfolding emit parse_source
parsing sources repo req stream src =
    then_send (emit stream (progress (bytes "parsing AST") 20)) (parse_source sources repo req src)

-- The step 1.
reading : Sources → Bytes → OpenSessionRequest → Stream SessionEvent → Run
unfolding or_fail opened_repo parsing
reading sources repo req stream = then_with stream (opened_repo sources repo) (λ _.
    then_with stream (or_fail not_found (sources.read_file repo req.ref req.file_path))
      (parsing sources repo req stream))

unfoldable pub parse_file : Sources → Bytes → OpenSessionRequest → Stream SessionEvent → Run
unfolding emit reading
parse_file sources repo req stream =
    then_send (emit stream (progress (bytes "opening repository") 5)) (reading sources repo req)

abbrev pub graph_of : OpenSessionRequest → Parsed → Graph
graph_of req p = build p.nodes req.omit_raw_source req.symbol

unfoldable pub glossary_of : Sources → OpenSessionRequest → Parsed → List GlossaryTerm
unfolding glossary_term effective_level
glossary_of sources req p = map (glossary_term (graph_of req p).entry_id) (
    sources.extract_glossary_terms (record {
      code = p.source;
      language = p.language;
      level = effective_level req.experience_level;
    }))

unfoldable pub file_session : Sources → ℕ → Bytes → OpenSessionRequest → Parsed → Session
unfolding new_session effective_level add_terms glossary_of build
file_session sources now id req p =
    add_terms
      (new_session now id (graph_of req p) (effective_level req.experience_level) p.language
        req.omit_raw_source p.source req.file_path p.repo_path req.ref)
      (glossary_of sources req p)

unfoldable pub session_ready : Sources → Bytes → OpenSessionRequest → Parsed → SessionEvent
unfolding glossary_of all_steps len build
session_ready sources id req p = ready (record {
  session_id = id;
  steps = all_steps (graph_of req p);
  glossary = glossary_of sources req p;
  language = p.language;
  total_steps = len (graph_of req p) % 2 ^ 32;
  entry_step_id = (graph_of req p).entry_id;
})

unfoldable pub register :
    Sources
    → ℕ
    → Bytes
    → Store
    → OpenSessionRequest
    → Stream SessionEvent × Result Code Parsed
    → Opened
unfolding emit file_session session_ready Store.set
register sources now id st req (stream, err c) = (st, (stream, err c))
register sources now id st req (stream, ok p) =
    (Store.set st (file_session sources now id req p), emit stream (session_ready sources id req p))

-- `repo_root` is the server's default repository.
unfoldable pub open_session :
    Sources → Bytes → ℕ → Bytes → Store → OpenSessionRequest → Stream SessionEvent → Opened
unfolding parse_file register ◌==◌
open_session sources repo_root now id st req stream =
    if req.file_path == []
    then (st, (stream, err invalid_argument))
    else register sources now id st req
        (parse_file sources (if req.repo_path == [] then repo_root else req.repo_path) req stream)
