-- ===== src/Server/Navigate/Laws.antt =====
-- The replay of a narration from the cache, against the live narration that filled it.
use codewalker.Prelude.{
  ◌+◌, ◌≤◌, ◌<◌, Bytes, List, [], ◌∷◌, ◌++◌, map, append_assoc, append-nil, Option, none, some, ok,
  ◌≡◌, refl, sym, ap, ◌∙◌, arith, length,
}
use mathlib.Core.Path.{subst}
use codewalker.Proto.{StepSummary, NarrateEvent, StepEdge}
use codewalker.Graph.{Step}
use codewalker.Session.{Session, CachedStep, cached_narration}
use codewalker.Session.Store.{Store}
use codewalker.Server.Stream.{Stream, send, then_send, check_enough, send_enough}
use codewalker.Server.Navigate.{
  Sent, Drain, finished, Arrival, drain, start_drain, replay_tokens, replay_summary, replay_cached,
  complete_event, Provider, narrate_step,
}
use codewalker.Server.Navigate.Events.{
  tokens_in, summaries_in, as_list, IsLedger, Keeps, drain-Keeps, tokens_in-append,
  summaries_in-append,
}

abbrev pub token_events : List Bytes → List NarrateEvent
token_events = map NarrateEvent.token

abbrev pub summary_events : Option StepSummary → List NarrateEvent
summary_events none = []
summary_events (some s) = NarrateEvent.summary_ready s ∷ []

pub replay_tokens_lem :
    (ts : List Bytes) (st : Stream NarrateEvent)
    → length ts ≤ st.room
    → length ts ≤ st.life
    → (st' : Stream NarrateEvent) × (replay_tokens st ts ≡ (st', ok tt))
      × (st'.sent ≡ st.sent ++ token_events ts)
      × (st'.room + length ts ≡ st.room)
unfolding replay_tokens
replay_tokens_lem [] st r l = (st, refl, sym (append-nil st.sent), omega arith)
replay_tokens_lem (t ∷ ts) st r l =
    let (n, life, checked) = check_enough st (omega arith) in
    let after : Stream NarrateEvent = record st { life = n } in
    let (m, room, was_sent) = send_enough after (NarrateEvent.token t) (omega arith) in
    let next : Stream NarrateEvent = record after {
      sent = st.sent ++ NarrateEvent.token t ∷ [];
      room = m;
    } in
    let (st', rest, sent, left) = replay_tokens_lem ts next (omega arith) (omega arith) in
    (
      st',
      ap
            (λ (x : Sent).
              then_send x
                (λ s. then_send (send s (NarrateEvent.token t)) (λ s. replay_tokens s ts)))
            checked
          ∙ ap (λ (x : Sent). then_send x (λ s. replay_tokens s ts)) was_sent
          ∙ rest,
      sent ∙ append_assoc st.sent (NarrateEvent.token t ∷ []) (token_events ts),
      omega arith,
    )

replay_summary_lem :
    (o : Option StepSummary) (st : Stream NarrateEvent)
    → 0 < st.room
    → (st' : Stream NarrateEvent) × (replay_summary st o ≡ (st', ok tt))
      × (st'.sent ≡ st.sent ++ summary_events o)
      × (st.room ≤ st'.room + 1)
unfolding replay_summary
replay_summary_lem none st h = (st, refl, sym (append-nil st.sent), omega arith)
replay_summary_lem (some s) st h =
    let (m, room, was_sent) = send_enough st (NarrateEvent.summary_ready s) h in
    (
      record st { sent = st.sent ++ NarrateEvent.summary_ready s ∷ []; room = m },
      was_sent,
      refl,
      omega arith,
    )

-- On a stream that stays open, the replay sends the cached tokens, the cached summary if there is
-- one, and the last event.
pub replay_cached_lem :
    (st : Stream NarrateEvent) (s : Step) (c : CachedStep) (edges : List StepEdge)
    (crumb : List Bytes)
    → length c.narration_tokens + 2 ≤ st.room
    → length c.narration_tokens ≤ st.life
    → (st' : Stream NarrateEvent) × (replay_cached st s c edges crumb ≡ (st', ok tt))
      × (st'.sent
          ≡ st.sent
            ++ ((token_events c.narration_tokens ++ summary_events c.summary)
                ++ complete_event s edges crumb c.summary ∷ []))
unfolding replay_cached
replay_cached_lem st s c edges crumb r l =
    let (a, ea, sa, ra) = replay_tokens_lem c.narration_tokens st (omega arith) l in
    let (b, eb, sb, rb) = replay_summary_lem c.summary a (omega arith) in
    let (m, rc, ec) = send_enough b (complete_event s edges crumb c.summary) (omega arith) in
    (
      record b { sent = b.sent ++ complete_event s edges crumb c.summary ∷ []; room = m },
      ap
            (λ (x : Sent). then_send x (λ st.
              then_send (replay_summary st c.summary)
                (λ st. send st (complete_event s edges crumb c.summary))))
            ea
          ∙ ap (λ (x : Sent). then_send x (λ st. send st (complete_event s edges crumb c.summary)))
              eb
          ∙ ec,
      simp (sb, sa, append_assoc),
    )

tokens_in-token_events : (ts : List Bytes) → tokens_in (token_events ts) ≡ ts
unfolding tokens_in
tokens_in-token_events [] = refl
tokens_in-token_events (t ∷ ts) = ap (◌∷◌ t) (tokens_in-token_events ts)

summaries_in-token_events : (ts : List Bytes) → summaries_in (token_events ts) ≡ []
unfolding summaries_in
summaries_in-token_events [] = refl
summaries_in-token_events (t ∷ ts) = summaries_in-token_events ts

tokens_in-summary_events : (o : Option StepSummary) → tokens_in (summary_events o) ≡ []
unfolding tokens_in
tokens_in-summary_events none = refl
tokens_in-summary_events (some s) = refl

summaries_in-summary_events : (o : Option StepSummary) → summaries_in (summary_events o) ≡ as_list o
unfolding summaries_in
summaries_in-summary_events none = refl
summaries_in-summary_events (some s) = refl

start-IsLedger :
    (stream : Stream NarrateEvent) (s : Step) → IsLedger stream.sent (start_drain stream s)
unfolding start_drain tokens_in summaries_in
start-IsLedger stream s = record {
  events = [];
  sent = sym (append-nil stream.sent);
  tokens = refl;
  summaries = refl;
  pending = λ _. refl;
}

-- What the cache is given.
abbrev pub cached_of : Drain → CachedStep
cached_of d = record { narration_tokens = d.collected_tokens; summary = d.summary_result }

-- When the loop of a live narration has ended, what it sent and what a replay of the cached step
-- sends on a stream that stays open hold the same tokens in the same order and the same summary; the
-- replay then ends with the completion event for that summary.
pub replay-drain :
    (stream : Stream NarrateEvent) (s : Step) (arrivals : List Arrival) {d : Drain}
    (st : Stream NarrateEvent) (edges : List StepEdge) (crumb : List Bytes)
    → drain (start_drain stream s) arrivals ≡ finished d
    → length d.collected_tokens + 2 ≤ st.room
    → length d.collected_tokens ≤ st.life
    → (sent : List NarrateEvent) × (replayed : List NarrateEvent) × (st' : Stream NarrateEvent)
      × (d.stream.sent ≡ stream.sent ++ sent)
      × (replay_cached st s (cached_of d) edges crumb ≡ (st', ok tt))
      × (st'.sent ≡ st.sent ++ (replayed ++ complete_event s edges crumb d.summary_result ∷ []))
      × (tokens_in replayed ≡ tokens_in sent)
      × (summaries_in replayed ≡ summaries_in sent)
replay-drain stream s arrivals {d} st edges crumb e r l =
    let h : IsLedger stream.sent d =
      subst (Keeps stream.sent) e
        (drain-Keeps stream.sent (start_drain stream s) arrivals (start-IsLedger stream s)) in
    let (st', replays, sent) = replay_cached_lem st s (cached_of d) edges crumb r l in
    let ts = d.collected_tokens in
    let o = d.summary_result in
    (
      h.events,
      token_events ts ++ summary_events o,
      st',
      h.sent,
      replays,
      sent,
      tokens_in-append (token_events ts) (summary_events o)
          ∙ simp (tokens_in-token_events, tokens_in-summary_events, append-nil) (sym h.tokens),
      summaries_in-append (token_events ts) (summary_events o)
          ∙ simp (summaries_in-token_events, summaries_in-summary_events) (sym h.summaries),
    )

-- A step that the cache has is answered alike whatever the model would say.
pub narrate_step-cached :
    (p q : Provider) (st : Store) (sess : Session) (stream : Stream NarrateEvent) (s : Step)
    {c : CachedStep}
    → cached_narration sess s.id ≡ some c
    → narrate_step p st sess stream s ≡ narrate_step q st sess stream s
unfolding narrate_step
narrate_step-cached p q st sess stream s h = ground arith
