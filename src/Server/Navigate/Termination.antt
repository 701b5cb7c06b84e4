-- ===== src/Server/Navigate/Termination.antt =====
-- The loop of a live narration ends when its two channels have.
use codewalker.Prelude.{
  Bytes, Bool, true, false, not, ◌&&◌, ◌||◌, List, [], ◌∷◌, none, some, ok, err, ◌≡◌, ◌≢◌, refl,
  arith, Bool-cases, inl, inr, ◌⊎◌,
}
use codewalker.Proto.{NarrateEvent, StepSummary}
use codewalker.Server.Stream.{Stream, send}
use codewalker.Server.Navigate.{
  Sent, Arrival, token, tokens_closed, summary_done, cancelled, Drain, Drained, finished, failed,
  waiting, sent_token, sent_summary, round, drain, Code,
}

-- The arrivals that end the channel of tokens, and that of the summary.
abbrev ends_tokens : Arrival → Bool
ends_tokens tokens_closed = true
ends_tokens _ = false

abbrev ends_summary : Arrival → Bool
ends_summary (summary_done result) = true
ends_summary _ = false

-- One of the arrivals does so.
abbrev pub any_of : (Arrival → Bool) → List Arrival → Bool
any_of ends [] = false
any_of ends (a ∷ rest) = ends a || any_of ends rest

abbrev pub tokens_end : List Arrival → Bool
tokens_end arrivals = any_of ends_tokens arrivals

abbrev pub summary_ends : List Arrival → Bool
summary_ends arrivals = any_of ends_summary arrivals

-- What a round that goes on does to the channels.
abbrev Goes : Drain → Arrival → Drain → Type 0
Goes d a next =
    (next.tokens_open ≡ (d.tokens_open && not (ends_tokens a)))
    × (next.summary_open ≡ (d.summary_open && not (ends_summary a)))

sent_token-Goes :
    (d next : Drain) (t : Bytes) (s : Sent)
    → sent_token d t s ≡ waiting next
    → Goes d (token t) next
unfolding sent_token
sent_token-Goes d next t (st, ok r) run = (ground arith, ground arith)
sent_token-Goes d next t (st, err c) run = absurd (ground arith)

sent_summary-Goes :
    (d next : Drain) (r : StepSummary) (s : Sent)
    → sent_summary d r s ≡ waiting next
    → Goes d (summary_done (some r)) next
unfolding sent_summary
sent_summary-Goes d next r (st, ok u) run = (ground arith, ground arith)
sent_summary-Goes d next r (st, err c) run = absurd (ground arith)

round-Goes : (d next : Drain) (a : Arrival) → round d a ≡ waiting next → Goes d a next
unfolding round
round-Goes d next (token t) run = elim (Bool-cases d.tokens_open) [
  | inl e ↦ sent_token-Goes d next t (send d.stream (NarrateEvent.token t)) (ground arith)
  | inr e ↦ (ground arith, ground arith)
]
round-Goes d next tokens_closed run = (ground arith, ground arith)
round-Goes d next (summary_done none) run = (ground arith, ground arith)
round-Goes d next (summary_done (some r)) run = elim (Bool-cases d.summary_open) [
  | inl e ↦ sent_summary-Goes d next r (send d.stream (NarrateEvent.summary_ready r)) (ground arith)
  | inr e ↦ (ground arith, ground arith)
]
round-Goes d next cancelled run = absurd (ground arith)

-- An end that an arrival does not bring is brought by a later one.
still :
    (was is ends later : Bool)
    → is ≡ (was && not ends)
    → (not was || (ends || later)) ≡ true
    → (not is || later) ≡ true
still was is ends later goes h = ground arith

Drained-cases :
    (r : Drained)
    → ((d : Drain) × (r ≡ waiting d))
      ⊎ (((d : Drain) × (r ≡ finished d))
          ⊎ ((c : Code) × (st : Stream NarrateEvent) × (r ≡ failed c st)))
Drained-cases (waiting d) = inl (d, refl)
Drained-cases (finished d) = inr (inl (d, refl))
Drained-cases (failed c st) = inr (inr (c, st, refl))

-- The loop waits after a round only if the round did.
drain-waiting :
    (d last : Drain) (a : Arrival) (rest : List Arrival)
    → drain d (a ∷ rest) ≡ waiting last
    → (next : Drain) × (round d a ≡ waiting next) × (drain next rest ≡ waiting last)
unfolding drain
drain-waiting d last a rest run = elim (Bool-cases (d.tokens_open || d.summary_open)) [
  | inr e ↦ absurd (ground arith)
  | inl e ↦ elim (Drained-cases (round d a)) [
    | inl (next, one) ↦ (next, one, ground arith)
    | inr (inl (done, one)) ↦ absurd (ground arith)
    | inr (inr (c, st, one)) ↦ absurd (ground arith)
  ]
]

-- Once the tokens have ended and the summary has come, in either order and with any arrivals before,
-- between and behind, the loop waits no longer: it has finished or failed.
pub drain-ends :
    (d : Drain) (arrivals : List Arrival)
    → (not d.tokens_open || tokens_end arrivals) ≡ true
    → (not d.summary_open || summary_ends arrivals) ≡ true
    → (last : Drain) → drain d arrivals ≢ waiting last
unfolding drain
drain-ends d [] tokens summary last run = ground arith
drain-ends d (a ∷ rest) tokens summary last run =
    let (next, one, more) = drain-waiting d last a rest run in
    let (t, s) = round-Goes d next a one in
    drain-ends next rest
      (still d.tokens_open next.tokens_open (ends_tokens a) (tokens_end rest) t tokens)
      (still d.summary_open next.summary_open (ends_summary a) (summary_ends rest) s summary) last
      more
