-- ===== src/Server/Navigate.antt =====
-- server/navigate.go: `Navigate`, the live narration and the replay from the cache.
pub mod Termination
pub mod Events
pub mod Laws
pub mod Health
use codewalker.Prelude.{
  ℕ, Bytes, bytes, Bool, true, false, ◌||◌, List, [], ◌∷◌, ◌++◌, Option, none, some, Result, ok,
  err, ◌==◌, if◌then◌else◌,
}
use codewalker.Prelude.Assoc.{Assoc, lookup, put}
use codewalker.Proto.{
  StepSummary, StepComplete, NarrateEvent, StepEdge, EdgeLabel, StepKind, HunkSpan,
}
use codewalker.Graph.{Graph, Step, step}
use codewalker.Graph.Walker.{
  Walker, WalkError, Outcome, Move, ahead, back_up, to_step, along, make, navigable_edges,
}
use codewalker.Session.{Session, CachedStep, cached_narration, cache_narration}
use codewalker.Session.Store
use codewalker.Session.Store.{Store}
use codewalker.Server.Stream.{
  Code, Stream, send, check_context, then_send, invalid_argument, not_found, internal, context_done,
}
use codewalker.Server.Source.{step_code}

pub data Direction : Type 0 where
  unspecified forward back : Direction

-- The `oneof` of a request's destination.
pub data Destination : Type 0 where
  direction : Direction → Destination
  step_id : Bytes → Destination
  follow_edge : EdgeLabel → Destination
  absent : Destination

pub record NavigateRequest : Type 0 where
  pub session_id : Bytes
  pub destination : Destination

-- The `switch` on the destination.
unfoldable pub destination_move : Destination → Option Move
destination_move (direction Direction.forward) = some ahead
destination_move (direction Direction.back) = some back_up
destination_move (direction Direction.unspecified) = none
destination_move (step_id id) = some (to_step id)
destination_move (follow_edge label) = some (along label)
destination_move absent = none

-- The labels of the steps of a breadcrumb that the graph has.
unfoldable pub crumb_labels : Graph → List Bytes → List Bytes
unfolding step
crumb_labels g [] = []
crumb_labels g (id ∷ ids) =
    let rest = crumb_labels g ids in elim (step g id) [ none ↦ rest | some s ↦ s.label ∷ rest ]

-- The last event of a narration, live or replayed.
unfoldable pub complete_event :
    Step → List StepEdge → List Bytes → Option StepSummary → NarrateEvent
complete_event s edges crumb summary = NarrateEvent.complete (record {
  step_id = s.id;
  new_terms = [];
  available_edges = edges;
  breadcrumb = crumb;
  summary = summary;
})

abbrev pub Sent : Type 0
Sent = Stream NarrateEvent × Result Code (Unit {0})

unfoldable pub replay_tokens : Stream NarrateEvent → List Bytes → Sent
unfolding send check_context
replay_tokens st [] = (st, ok tt)
replay_tokens st (t ∷ ts) =
    then_send (check_context st)
      (λ st. then_send (send st (NarrateEvent.token t)) (λ st. replay_tokens st ts))

replay_summary : Stream NarrateEvent → Option StepSummary → Sent
unfolding send
replay_summary st none = (st, ok tt)
replay_summary st (some s) = send st (NarrateEvent.summary_ready s)

unfoldable pub replay_cached :
    Stream NarrateEvent → Step → CachedStep → List StepEdge → List Bytes → Sent
unfolding replay_tokens replay_summary complete_event
replay_cached st s cached edges crumb = then_send (replay_tokens st cached.narration_tokens) (λ st.
    then_send (replay_summary st cached.summary)
      (λ st. send st (complete_event s edges crumb cached.summary)))

-- What a round of the `select` received: a token, the end of the tokens, the result of the summary
-- (nil if it failed), or the end of the context.
pub data Arrival : Type 0 where
  token : Bytes → Arrival
  tokens_closed : Arrival
  summary_done : Option StepSummary → Arrival
  cancelled : Arrival

-- The variables of the loop. A channel that was set to nil is not open.
pub record Drain : Type 0 where
  pub stream : Stream NarrateEvent
  pub tokens_open : Bool
  pub summary_open : Bool
  pub collected_tokens : List Bytes
  pub summary_result : Option StepSummary

-- How the loop ends: both channels are exhausted, it returned an error, or it still waits.
pub data Drained : Type 0 where
  finished : Drain → Drained
  failed : Code → Stream NarrateEvent → Drained
  waiting : Drain → Drained

sent_token : Drain → Bytes → Sent → Drained
sent_token d t (st, ok _) =
    waiting (record d { stream = st; collected_tokens = d.collected_tokens ++ t ∷ [] })
sent_token d t (st, err c) = failed c st

sent_summary : Drain → StepSummary → Sent → Drained
sent_summary d s (st, ok _) =
    waiting (record d { stream = st; summary_open = false; summary_result = some s })
sent_summary d s (st, err c) = failed c st

-- One round of the `select`. Nothing is received from a channel that is not open.
round : Drain → Arrival → Drained
unfolding send sent_token sent_summary
round d (token t) =
    if d.tokens_open then sent_token d t (send d.stream (NarrateEvent.token t)) else waiting d
round d tokens_closed = waiting (record d { tokens_open = false })
round d (summary_done none) =
    if d.summary_open then waiting (record d { summary_open = false }) else waiting d
round d (summary_done (some s)) =
    if d.summary_open
    then sent_summary d s (send d.stream (NarrateEvent.summary_ready s))
    else waiting d
round d cancelled = failed context_done d.stream

-- The loop, which ends when both channels are exhausted.
unfoldable pub drain : Drain → List Arrival → Drained
unfolding round
drain d [] = if d.tokens_open || d.summary_open then waiting d else finished d
drain d (a ∷ rest) =
    if d.tokens_open || d.summary_open
    then elim (round d a) [
      | finished d' ↦ finished d'
      | failed c st ↦ failed c st
      | waiting d' ↦ drain d' rest
    ]
    else finished d

pub record NarrateRequest : Type 0 where
  pub code : Bytes
  pub language : Bytes
  pub step_label : Bytes
  pub step_kind : StepKind
  pub call_chain : List Bytes
  pub variables : List Bytes
  pub level : ℕ

pub record SummaryRequest : Type 0 where
  pub language : Bytes
  pub hunk_diff : Bytes
  pub context_before : Bytes
  pub context_after : Bytes

-- The model: it refuses to narrate, or narrates and summarises, in the order in which the loop then
-- receives.
pub record Provider : Type 0 where
  pub narrate : NarrateRequest → Option SummaryRequest → Option (List Arrival)

summary_request : Session → Option HunkSpan → Option SummaryRequest
summary_request sess none = none
summary_request sess (some h) = some (record {
  language = sess.language;
  hunk_diff = h.raw_diff;
  context_before = h.context_before;
  context_after = h.context_after;
})

-- How the call ends: with a status, or it still waits for an arrival.
pub data Ending : Type 0 where
  returned : Result Code (Unit {0}) → Ending
  still_waiting : Ending

abbrev pub Answer : Type 0
Answer = Store × Stream NarrateEvent × Ending

answer : Store → Sent → Answer
answer st (stream, r) = (st, stream, returned r)

is_some : Option HunkSpan → Bool
is_some none = false
is_some (some h) = true

unfoldable pub start_drain : Stream NarrateEvent → Step → Drain
unfolding is_some
start_drain stream s = record {
  stream = stream;
  tokens_open = true;
  summary_open = is_some s.hunk_span;
  collected_tokens = [];
  summary_result = none;
}

-- After the loop: the cache is written, then the last event is sent.
unfoldable pub settle : Store → Session → Step → List StepEdge → List Bytes → Drained → Answer
unfolding answer complete_event send cache_narration Store.set
settle st sess s edges crumb (failed c stream) = (st, stream, returned (err c))
settle st sess s edges crumb (waiting d) = (st, d.stream, still_waiting)
settle st sess s edges crumb (finished d) =
    let cached : CachedStep = record {
      narration_tokens = d.collected_tokens;
      summary = d.summary_result;
    } in
    answer (Store.set st (cache_narration sess s.id cached))
      (send d.stream (complete_event s edges crumb d.summary_result))

live :
    Store
    → Session
    → Stream NarrateEvent
    → Step
    → List StepEdge
    → List Bytes
    → Option (List Arrival)
    → Answer
unfolding settle drain start_drain
live st sess stream s edges crumb none = (st, stream, returned (err internal))
live st sess stream s edges crumb (some arrivals) =
    settle st sess s edges crumb (drain (start_drain stream s) arrivals)

narrate_code :
    Provider
    → Store
    → Session
    → Stream NarrateEvent
    → Step
    → List StepEdge
    → List Bytes
    → Option Bytes
    → Option CachedStep
    → Answer
unfolding live answer replay_cached summary_request
-- a panic, which the middleware turns into a status
narrate_code p st sess stream s edges crumb none cached = (st, stream, returned (err internal))
narrate_code p st sess stream s edges crumb (some code) (some cached) =
    answer st (replay_cached stream s cached edges crumb)
narrate_code p st sess stream s edges crumb (some code) none = live st sess stream s edges crumb (
    p.narrate
      (record {
        code = code;
        language = sess.language;
        step_label = s.label;
        step_kind = s.kind;
        call_chain = crumb;
        variables = [];
        level = sess.eff_level;
      })
      (summary_request sess s.hunk_span))

unfoldable pub narrate_step : Provider → Store → Session → Stream NarrateEvent → Step → Answer
unfolding narrate_code step_code cached_narration crumb_labels navigable_edges
narrate_step p st sess stream s =
    narrate_code p st sess stream s (navigable_edges sess.walker)
      (crumb_labels sess.walker.g sess.walker.breadcrumb)
      (step_code sess.source s.hunk_span s.source) (cached_narration sess s.id)

-- The walker is moved, in the session that the store holds, whether the move succeeds or not.
after_move : Provider → Store → Session → Stream NarrateEvent → Outcome → Answer
unfolding Store.set narrate_step
after_move p st sess stream (w, err e) =
    (Store.set st (record sess { walker = w }), stream, returned (err invalid_argument))
after_move p st sess stream (w, ok s) =
    let moved = record sess { walker = w } in narrate_step p (Store.set st moved) moved stream s

with_move : Provider → Store → Session → Stream NarrateEvent → Option Move → Answer
unfolding after_move make
with_move p st sess stream none = (st, stream, returned (err invalid_argument))
with_move p st sess stream (some m) = after_move p st sess stream (make sess.walker m)

with_session :
    Provider → Stream NarrateEvent → Destination → Store × Result Store.StoreError Session → Answer
unfolding with_move destination_move
with_session p stream d (st, err e) = (st, stream, returned (err not_found))
with_session p stream d (st, ok sess) = with_move p st sess stream (destination_move d)

unfoldable pub navigate : Provider → ℕ → Store → NavigateRequest → Stream NarrateEvent → Answer
unfolding with_session Store.get
navigate p now st req stream =
    if req.session_id == []
    then (st, stream, returned (err invalid_argument))
    else with_session p stream req.destination (Store.get now st req.session_id)
