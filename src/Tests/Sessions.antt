-- ===== src/Tests/Sessions.antt =====
-- The theorems of the registry and of `Navigate` at one session of a review.
use codewalker.Prelude.{
  Bytes, bytes, true, false, List, [], ◌∷◌, ◌++◌, ◌≢◌, none, some, ok, ◌≡◌, refl, arith, ◌==◌,
  if◌then◌else◌, ap, or_empty, ◌∙◌,
}
use codewalker.Prelude.Assoc.{lookup}
use codewalker.Proto.{NarrateEvent}
use codewalker.Graph.{Step}
use codewalker.Session.{Session, new_session, touch}
use codewalker.Session.Store.{Store, new_store, set, get, run_eviction}
use codewalker.Session.Store.Laws.{
  IsConsistent, new_store-IsConsistent, set-IsConsistent, find, get-run_eviction,
}
use codewalker.Server.Stream.{Stream}
use codewalker.Server.Navigate.{
  Arrival, token, tokens_closed, Drain, drain, start_drain, finished, replay_cached, complete_event,
  NavigateRequest, Direction, direction, navigate, Provider,
}
use codewalker.Server.Navigate.Laws.{cached_of, replay-drain, token_events}
use codewalker.Server.Navigate.Events.{tokens_in, summaries_in}
use codewalker.Server.Navigate.Health.{IsHealthy, set-IsHealthy, navigate-IsHealthy}
use codewalker.Server.Sessions.{close_session}
use codewalker.Server.Sessions.Laws.{close_session-find, closes}
use codewalker.Graph.Walker.{current_step}
use codewalker.Server.Assist.{
  Assistant, RephraseMode, source_code, rephrase, rephrase_end, context_code, expand_term,
}
use codewalker.Server.Assist.Laws.{rephrase-sends, expand_end, expand_term-sends}
use codewalker.Proto.{ExperienceLevel}
use codewalker.Server.OpenReview.{SessionEvent}
use codewalker.Server.OpenSession.{Sources, OpenSessionRequest, open_session}
use codewalker.Server.OpenSession.Laws.{FindsNodes, open_session-IsHealthy}
use codewalker.Tests.{a_function, first_step, two_steps, a_walker-IsOnGraph, a_step, Node}

abbrev pub s1 : Bytes
s1 = bytes "s1"

abbrev pub a_session : Session
a_session = new_session 100 s1 two_steps 5 (bytes "go") false [] [] [] []

abbrev pub a_store : Store
a_store = set new_store a_session

a_store-IsConsistent : IsConsistent a_store
a_store-IsConsistent = set-IsConsistent new_store a_session new_store-IsConsistent

read : (get 200 a_store s1).1 ≡ ok (touch 200 a_session)
unfolding get set ◌==◌ new_session
read = refl

get-run_eviction_example :
    (get 300 (run_eviction 60 (220 ∷ 250 ∷ []) (get 200 a_store s1).0) s1).1
    ≡ ok (touch 300 (touch 200 a_session))
get-run_eviction_example =
    get-run_eviction 60 200 300 (220 ∷ 250 ∷ []) a_store s1 a_store-IsConsistent read
      (omega arith, (omega arith, tt))

has_id : (s1 == []) ≡ false
unfolding ◌==◌
has_id = refl

close_session-find_example :
    (find (close_session 200 a_store s1).0 s1 ≡ (if s1 == s1 then none else find a_store s1))
    × ((close_session 200 a_store s1).1 ≡ closes (find a_store s1))
close_session-find_example = close_session-find 200 a_store s1 s1 has_id

-- A narration of two tokens, whose step has no hunk.

abbrev pub arrivals : List Arrival
arrivals = token (bytes "He") ∷ token (bytes "y") ∷ tokens_closed ∷ []

abbrev pub a_stream : Stream NarrateEvent
a_stream = record { sent = []; room = 9; life = 9 }

abbrev pub told : Step
told = a_step (bytes "a") []

abbrev pub after_told : Drain
after_told = record {
  stream = record {
    sent = NarrateEvent.token (bytes "He") ∷ NarrateEvent.token (bytes "y") ∷ [];
    room = 7;
    life = 9;
  };
  tokens_open = false;
  summary_open = false;
  collected_tokens = bytes "He" ∷ bytes "y" ∷ [];
  summary_result = none;
}

drained : drain (start_drain a_stream told) arrivals ≡ finished after_told
unfolding drain start_drain
drained = refl

replay-drain_example :
    (sent : List NarrateEvent) × (replayed : List NarrateEvent) × (st' : Stream NarrateEvent)
    × (after_told.stream.sent ≡ [] ++ sent)
    × (replay_cached a_stream told (cached_of after_told) [] [] ≡ (st', ok tt))
    × (st'.sent ≡ [] ++ (replayed ++ complete_event told [] [] none ∷ []))
    × (tokens_in replayed ≡ tokens_in sent)
    × (summaries_in replayed ≡ summaries_in sent)
replay-drain_example =
    replay-drain a_stream told arrivals a_stream [] [] drained (omega arith) (omega arith)

abbrev a_provider : Provider
a_provider = record { narrate = λ _ _. some arrivals }

new_store-IsHealthy : IsHealthy new_store
unfolding lookup
new_store-IsHealthy = record { consistent = new_store-IsConsistent; on_graph = λ k s e. cc }

pub a_store-IsHealthy : IsHealthy a_store
unfolding new_session
a_store-IsHealthy = set-IsHealthy new_store a_session a_walker-IsOnGraph new_store-IsHealthy

abbrev a_request : NavigateRequest
a_request = record { session_id = s1; destination = direction Direction.forward }

navigate-IsHealthy_example : IsHealthy (navigate a_provider 200 a_store a_request a_stream).0
navigate-IsHealthy_example =
    navigate-IsHealthy a_provider 200 a_store a_request a_stream a_store-IsHealthy

-- A client that asks for other words.

abbrev an_assistant : Assistant
an_assistant = record {
  rephrase = λ _. some (bytes "In" ∷ bytes "short" ∷ []);
  expand_term = λ req. some (req.term ∷ bytes "means" ∷ []);
}

abbrev read_session : Session
read_session = touch 200 a_session

stands : current_step read_session.walker ≡ some first_step
unfolding current_step codewalker.Graph.step codewalker.Graph.step_ref touch new_session
    codewalker.Graph.add ◌==◌
stands = refl

no_code : source_code read_session.source first_step.source ≡ some []
unfolding source_code
no_code = refl

at_no_code : context_code read_session.source (current_step read_session.walker) ≡ some []
unfolding context_code source_code current_step codewalker.Graph.step codewalker.Graph.step_ref
    touch new_session codewalker.Graph.add ◌==◌
at_no_code = refl

has_term : (bytes "defer" == []) ≡ false
unfolding ◌==◌
has_term = refl

rephrase-sends_example :
    (after : Stream NarrateEvent) × (rephrase an_assistant 200 a_store s1 RephraseMode.tldr a_stream
      ≡ ((get 200 a_store s1).0, (after, ok tt)))
    × (after.sent
        ≡ []
          ++ (token_events (bytes "In" ∷ bytes "short" ∷ [])
              ++ rephrase_end read_session first_step ∷ []))
rephrase-sends_example =
    rephrase-sends an_assistant 200 a_store s1 RephraseMode.tldr a_stream has_id read stands no_code
      refl (omega arith) (omega arith)

expand_term-sends_example :
    (after : Stream NarrateEvent) × (expand_term an_assistant 200 a_store s1
        (bytes "defer")
        a_stream
      ≡ ((get 200 a_store s1).0, (after, ok tt)))
    × (after.sent
        ≡ []
          ++ (token_events (bytes "defer" ∷ bytes "means" ∷ [])
              ++ expand_end read_session (bytes "defer") ∷ []))
expand_term-sends_example =
    expand_term-sends an_assistant 200 a_store s1 (bytes "defer") a_stream has_id has_term read
      at_no_code refl (omega arith) (omega arith)

-- A new session on a file of one function.

abbrev func_text : Bytes
func_text = bytes "func f() {}"

-- A text of any other kind is accepted, and has no node.
abbrev some_sources : Sources
some_sources = record {
  open_repo = λ _. true;
  read_file = λ _ _ _. some func_text;
  parse = λ src _. some (if src == func_text then a_function ∷ [] else [], bytes "Go");
  extract_glossary_terms = λ _. [];
}

abbrev pub a_file_request : OpenSessionRequest
a_file_request = record {
  repo_path = [];
  file_path = bytes "f.go";
  ref = [];
  symbol = [];
  experience_level = ExperienceLevel.senior;
  omit_raw_source = false;
}

cons_end : a_function ∷ [] ≢ []
cons_end q = cc

some_sources-FindsNodes : FindsNodes some_sources (bytes "/r") a_file_request
unfolding ◌==◌
some_sources-FindsNodes src language nodes r e =
    let same : func_text ≡ src = ap (or_empty) r in
    let found : (if src == func_text then a_function ∷ [] else []) ≡ nodes =
      ap (λ o. elim o as (λ _. List Node) [ none ↦ [] | some p ↦ p.0 ]) e in
    let one : a_function ∷ [] ≡ nodes = (rw (← same) refl) ∙ found in λ q. cons_end (one ∙ q)

abbrev pub a_session_stream : Stream SessionEvent
a_session_stream = record { sent = []; room = 9; life = 9 }

open_session-IsHealthy_example :
    IsHealthy
      (open_session some_sources
        (bytes "/r")
        100
        (bytes "s2")
        a_store
        a_file_request
        a_session_stream).0
open_session-IsHealthy_example =
    open_session-IsHealthy some_sources (bytes "/r") 100 (bytes "s2") a_store a_file_request
      a_session_stream some_sources-FindsNodes a_store-IsHealthy
