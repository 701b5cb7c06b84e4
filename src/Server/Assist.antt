-- ===== src/Server/Assist.antt =====
-- server/rephrase.go and server/expand_term.go: `Rephrase` and `ExpandTerm`. The model of the
-- language is a parameter: it refuses, or gives the tokens that the handler then receives.
pub mod Laws
use codewalker.Prelude.{
  ℕ, Bytes, bytes, List, [], ◌∷◌, Option, none, some, Result, ok, err, ◌==◌, if◌then◌else◌,
}
use codewalker.Proto.{NarrateEvent, GlossaryTerm, TermKind, SourceSpan}
use codewalker.Graph.{Step}
use codewalker.Graph.Walker.{current_step, navigable_edges}
use codewalker.Session.{Session, get_glossary_term}
use codewalker.Session.Store
use codewalker.Session.Store.{Store}
use codewalker.Server.Stream.{
  Stream, send, then_send, invalid_argument, not_found, internal, failed_precondition,
}
use codewalker.Server.Source.{span_code}
use codewalker.Server.Navigate.{Sent, NarrateRequest, crumb_labels, replay_tokens, complete_event}

-- The mode of a request, by the name that `modeString` gives it.
pub data RephraseMode : Type 0 where
  unspecified simpler deeper analogy tldr : RephraseMode

unfoldable pub mode_string : RephraseMode → Bytes
mode_string RephraseMode.unspecified = bytes "UNSPECIFIED"
mode_string RephraseMode.simpler = bytes "SIMPLER"
mode_string RephraseMode.deeper = bytes "DEEPER"
mode_string RephraseMode.analogy = bytes "ANALOGY"
mode_string RephraseMode.tldr = bytes "TLDR"

pub record RephraseRequest : Type 0 where
  pub narrate_request : NarrateRequest
  pub mode : Bytes

pub record ExpandTermRequest : Type 0 where
  pub term : Bytes
  pub context : Bytes
  pub language : Bytes
  pub level : ℕ

-- The tokens are those that the channel gives before it is closed.
pub record Assistant : Type 0 where
  pub rephrase : RephraseRequest → Option (List Bytes)
  pub expand_term : ExpandTermRequest → Option (List Bytes)

-- The code of a step without a source is empty; `none` is a panic.
unfoldable pub source_code : Bytes → Option SourceSpan → Option Bytes
unfolding span_code
source_code src none = some []
source_code src (some span) = span_code src span

abbrev pub Reply : Type 0
Reply = Store × Sent

-- The tokens, each after a look at the context, and the last event.
stream_tokens : Stream NarrateEvent → NarrateEvent → Option (List Bytes) → Sent
unfolding replay_tokens send
stream_tokens stream last none = (stream, err internal)
stream_tokens stream last (some tokens) =
    then_send (replay_tokens stream tokens) (λ stream. send stream last)

-- What the model is asked.
unfoldable pub rephrase_request : Session → RephraseMode → Step → Bytes → RephraseRequest
unfolding crumb_labels mode_string
rephrase_request sess mode s code = record {
  narrate_request = record {
    code = code;
    language = sess.language;
    step_label = s.label;
    step_kind = s.kind;
    call_chain = crumb_labels sess.walker.g sess.walker.breadcrumb;
    variables = [];
    level = sess.eff_level;
  };
  mode = mode_string mode;
}

-- The last event.
unfoldable pub rephrase_end : Session → Step → NarrateEvent
unfolding complete_event navigable_edges crumb_labels
rephrase_end sess s =
    complete_event s (navigable_edges sess.walker)
      (crumb_labels sess.walker.g sess.walker.breadcrumb) none

rephrase_code :
    Assistant → Session → RephraseMode → Stream NarrateEvent → Step → Option Bytes → Sent
unfolding stream_tokens rephrase_request rephrase_end
-- a panic, which the middleware turns into a status
rephrase_code a sess mode stream s none = (stream, err internal)
rephrase_code a sess mode stream s (some code) =
    stream_tokens stream (rephrase_end sess s) (a.rephrase (rephrase_request sess mode s code))

rephrase_step : Assistant → Session → RephraseMode → Stream NarrateEvent → Option Step → Sent
unfolding rephrase_code source_code
rephrase_step a sess mode stream none = (stream, err failed_precondition)
rephrase_step a sess mode stream (some s) =
    rephrase_code a sess mode stream s (source_code sess.source s.source)

rephrase_in :
    Assistant → RephraseMode → Stream NarrateEvent → Store × Result Store.StoreError Session → Reply
unfolding rephrase_step current_step
rephrase_in a mode stream (st, err e) = (st, (stream, err not_found))
rephrase_in a mode stream (st, ok sess) =
    (st, rephrase_step a sess mode stream (current_step sess.walker))

unfoldable pub rephrase : Assistant → ℕ → Store → Bytes → RephraseMode → Stream NarrateEvent → Reply
unfolding rephrase_in Store.get ◌==◌
rephrase a now st session_id mode stream =
    if session_id == []
    then (st, (stream, err invalid_argument))
    else rephrase_in a mode stream (Store.get now st session_id)

-- The code around the term: that of the current step, if there is one.
unfoldable pub context_code : Bytes → Option Step → Option Bytes
unfolding source_code
context_code src none = some []
context_code src (some s) = source_code src s.source

pub known_kind : Option GlossaryTerm → TermKind
known_kind none = TermKind.unspecified
known_kind (some t) = t.kind

expand_code : Assistant → Session → Bytes → Stream NarrateEvent → Option Bytes → Sent
unfolding stream_tokens known_kind get_glossary_term
expand_code a sess term stream none = (stream, err internal)
expand_code a sess term stream (some code) =
    stream_tokens stream
      (NarrateEvent.complete (record {
        step_id = sess.walker.current;
        new_terms =
            record {
              term = term;
              definition = [];
              step_id = sess.walker.current;
              kind = known_kind (get_glossary_term sess term);
            }
            ∷ [];
        available_edges = [];
        breadcrumb = [];
        summary = none;
      }))
      (a.expand_term
        (record { term = term; context = code; language = sess.language; level = sess.eff_level }))

expand_in :
    Assistant → Bytes → Stream NarrateEvent → Store × Result Store.StoreError Session → Reply
unfolding expand_code context_code current_step
expand_in a term stream (st, err e) = (st, (stream, err not_found))
expand_in a term stream (st, ok sess) =
    (st, expand_code a sess term stream (context_code sess.source (current_step sess.walker)))

unfoldable pub expand_term : Assistant → ℕ → Store → Bytes → Bytes → Stream NarrateEvent → Reply
unfolding expand_in Store.get ◌==◌
expand_term a now st session_id term stream =
    if session_id == []
    then (st, (stream, err invalid_argument))
    else if term == []
    then (st, (stream, err invalid_argument))
    else expand_in a term stream (Store.get now st session_id)
