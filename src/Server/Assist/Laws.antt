-- ===== src/Server/Assist/Laws.antt =====
-- server/rephrase.go and server/expand_term.go: what a client that waits is sent.
use codewalker.Prelude.{
  ℕ, ◌+◌, ◌≤◌, Bytes, false, List, [], ◌∷◌, ◌++◌, append_assoc, Option, none, some, Result, ok, err,
  ◌≡◌, ap, ◌∙◌, arith, length, ◌==◌,
}
use codewalker.Proto.{NarrateEvent}
use codewalker.Graph.{Step}
use codewalker.Graph.Walker.{current_step}
use codewalker.Session.{Session, get_glossary_term}
use codewalker.Session.Store.{Store, StoreError, get}
use codewalker.Server.Stream.{Stream, send, then_send, send_enough}
use codewalker.Server.Navigate.{Sent}
use codewalker.Server.Navigate.Laws.{token_events, replay_tokens_lem}
use codewalker.Server.Assist.{
  Assistant, RephraseMode, source_code, rephrase_request, rephrase_end, stream_tokens,
  rephrase_code, rephrase_step, rephrase_in, rephrase, context_code, known_kind, expand_code,
  expand_in, expand_term,
}

stream_tokens_lem :
    (stream : Stream NarrateEvent) (last : NarrateEvent) (tokens : List Bytes)
    → length tokens + 1 ≤ stream.room
    → length tokens ≤ stream.life
    → (after : Stream NarrateEvent) × (stream_tokens stream last (some tokens) ≡ (after, ok tt))
      × (after.sent ≡ stream.sent ++ (token_events tokens ++ last ∷ []))
unfolding stream_tokens
stream_tokens_lem stream last tokens r l =
    let (a, ea, sa, ra) = replay_tokens_lem tokens stream (omega arith) l in
    let (m, rm, em) = send_enough a last (omega arith) in
    (
      record a { sent = a.sent ++ last ∷ []; room = m },
      ap (λ (x : Sent). then_send x (λ s. send s last)) ea ∙ em,
      simp (sa, append_assoc),
    )

found :
    (a : Assistant) (mode : RephraseMode) (stream : Stream NarrateEvent)
    (r : Store × Result StoreError Session) {sess : Session}
    → r.1 ≡ ok sess
    → rephrase_in a mode stream r
      ≡ (r.0, rephrase_step a sess mode stream (current_step sess.walker))
unfolding rephrase_in
found a mode stream (st, err e) h = cc
found a mode stream (st, ok s) h = cc

-- `Rephrase` in a session whose walker stands on a step: a client that waits is sent the tokens of
-- the model in order and the last event of the step, and the registry is as `Get` leaves it.
pub rephrase-sends :
    (a : Assistant) (now : ℕ) (st : Store) (id : Bytes) (mode : RephraseMode)
    (stream : Stream NarrateEvent) {sess : Session} {s : Step} {code : Bytes} {tokens : List Bytes}
    → (id == []) ≡ false
    → (get now st id).1 ≡ ok sess
    → current_step sess.walker ≡ some s
    → source_code sess.source s.source ≡ some code
    → a.rephrase (rephrase_request sess mode s code) ≡ some tokens
    → length tokens + 1 ≤ stream.room
    → length tokens ≤ stream.life
    → (after : Stream NarrateEvent) × (rephrase a now st id mode stream
        ≡ ((get now st id).0, (after, ok tt)))
      × (after.sent ≡ stream.sent ++ (token_events tokens ++ rephrase_end sess s ∷ []))
unfolding rephrase rephrase_step rephrase_code
rephrase-sends a now st id mode stream {sess} {s} {code} {tokens} n g c q t r l =
    let (after, e, sent) = stream_tokens_lem stream (rephrase_end sess s) tokens r l in
    (
      after,
      rw n (
          found a mode stream (get now st id) g
          ∙ ap (λ (o : Option Step). ((get now st id).0, rephrase_step a sess mode stream o)) c
          ∙ ap (λ (o : Option Bytes). ((get now st id).0, rephrase_code a sess mode stream s o)) q
          ∙ ap
              (λ (o : Option (List Bytes)).
                ((get now st id).0, stream_tokens stream (rephrase_end sess s) o))
              t
          ∙ ap (λ (x : Sent). ((get now st id).0, x)) e),
      sent,
    )

-- The event that ends an expansion: the term as a new one of the current step, with the kind that the
-- glossary of the session has for it, and no way on.
abbrev pub expand_end : Session → Bytes → NarrateEvent
expand_end sess term = NarrateEvent.complete (record {
  step_id = sess.walker.current;
  new_terms =
      record {
        term = term;
        definition = [];
        step_id = sess.walker.current;
        kind = known_kind (get_glossary_term sess term);
      }
      ∷ [];
  available_edges = [];
  breadcrumb = [];
  summary = none;
})

found_term :
    (a : Assistant) (term : Bytes) (stream : Stream NarrateEvent)
    (r : Store × Result StoreError Session) {sess : Session}
    → r.1 ≡ ok sess
    → expand_in a term stream r
      ≡ (r.0, expand_code a sess term stream (context_code sess.source (current_step sess.walker)))
unfolding expand_in
found_term a term stream (st, err e) h = cc
found_term a term stream (st, ok s) h = cc

-- `ExpandTerm` in a session, whether its walker stands on a step or not: a client that waits is sent
-- the tokens of the model for the term, the code of the step, the language and the level of the session,
-- in order, and the event that ends an expansion; the registry is as `Get` leaves it.
pub expand_term-sends :
    (a : Assistant) (now : ℕ) (st : Store) (id term : Bytes) (stream : Stream NarrateEvent)
    {sess : Session} {code : Bytes} {tokens : List Bytes}
    → (id == []) ≡ false
    → (term == []) ≡ false
    → (get now st id).1 ≡ ok sess
    → context_code sess.source (current_step sess.walker) ≡ some code
    → a.expand_term
        (record { term = term; context = code; language = sess.language; level = sess.eff_level })
      ≡ some tokens
    → length tokens + 1 ≤ stream.room
    → length tokens ≤ stream.life
    → (after : Stream NarrateEvent) × (expand_term a now st id term stream
        ≡ ((get now st id).0, (after, ok tt)))
      × (after.sent ≡ stream.sent ++ (token_events tokens ++ expand_end sess term ∷ []))
unfolding expand_term expand_code
expand_term-sends a now st id term stream {sess} {code} {tokens} n m g q t r l =
    let (after, e, sent) = stream_tokens_lem stream (expand_end sess term) tokens r l in
    (
      after,
      rw (n, m)
          (found_term a term stream (get now st id) g
            ∙ ap (λ (o : Option Bytes). ((get now st id).0, expand_code a sess term stream o)) q
            ∙ ap
                (λ (o : Option (List Bytes)).
                  ((get now st id).0, stream_tokens stream (expand_end sess term) o))
                t
            ∙ ap (λ (x : Sent). ((get now st id).0, x)) e),
      sent,
    )
