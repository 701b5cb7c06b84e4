-- ===== src/Server/Navigate/Events.antt =====
-- What the loop of a live narration sends, keeps and leaves out.
use mathlib.Core.Path.{subst}
use codewalker.Prelude.{
  if◌then◌else◌, ℕ, Bytes, Bool, true, false, ◌||◌, List, [], ◌∷◌, ◌++◌, append_assoc, append-nil,
  Option, none, some, ◌≡◌, refl, sym, ap, ◌∙◌, inl, inr,
}
use codewalker.Proto.{StepSummary, NarrateEvent}
use codewalker.Server.Stream.{send_cases, send}
use codewalker.Server.Navigate.{
  Drain, Drained, finished, failed, waiting, Arrival, token, tokens_closed, summary_done, cancelled,
  round, sent_token, sent_summary, drain,
}

unfoldable pub tokens_in : List NarrateEvent → List Bytes
tokens_in [] = []
tokens_in (NarrateEvent.token t ∷ es) = t ∷ tokens_in es
tokens_in (NarrateEvent.complete c ∷ es) = tokens_in es
tokens_in (NarrateEvent.summary_ready s ∷ es) = tokens_in es

unfoldable pub summaries_in : List NarrateEvent → List StepSummary
summaries_in [] = []
summaries_in (NarrateEvent.token t ∷ es) = summaries_in es
summaries_in (NarrateEvent.complete c ∷ es) = summaries_in es
summaries_in (NarrateEvent.summary_ready s ∷ es) = s ∷ summaries_in es

pub tokens_in-append : (a b : List NarrateEvent) → tokens_in (a ++ b) ≡ tokens_in a ++ tokens_in b
unfolding tokens_in
tokens_in-append [] b = refl
tokens_in-append (NarrateEvent.token t ∷ a) b = ap (◌∷◌ t) (tokens_in-append a b)
tokens_in-append (NarrateEvent.complete c ∷ a) b = tokens_in-append a b
tokens_in-append (NarrateEvent.summary_ready s ∷ a) b = tokens_in-append a b

pub summaries_in-append :
    (a b : List NarrateEvent) → summaries_in (a ++ b) ≡ summaries_in a ++ summaries_in b
unfolding summaries_in
summaries_in-append [] b = refl
summaries_in-append (NarrateEvent.token t ∷ a) b = summaries_in-append a b
summaries_in-append (NarrateEvent.complete c ∷ a) b = summaries_in-append a b
summaries_in-append (NarrateEvent.summary_ready s ∷ a) b = ap (◌∷◌ s) (summaries_in-append a b)

abbrev pub as_list : Option StepSummary → List StepSummary
as_list none = []
as_list (some s) = s ∷ []

-- The loop's variables record what was sent since the stream had sent `base`.
pub record IsLedger (base : List NarrateEvent) (d : Drain) : Type 0 where
  pub events : List NarrateEvent
  pub sent : d.stream.sent ≡ base ++ events
  pub tokens : tokens_in events ≡ d.collected_tokens
  pub summaries : summaries_in events ≡ as_list d.summary_result
  pub pending : d.summary_open ≡ true → d.summary_result ≡ none

abbrev pub Keeps : List NarrateEvent → Drained → Type 0
Keeps base (finished d) = IsLedger base d
Keeps base (waiting d) = IsLedger base d
Keeps base (failed c st) = Unit

IsLedger-token :
    (base : List NarrateEvent) (d : Drain) (t : Bytes) (m : ℕ)
    → IsLedger base d
    → IsLedger base (record d {
      stream = record d.stream { sent = d.stream.sent ++ NarrateEvent.token t ∷ []; room = m };
      collected_tokens = d.collected_tokens ++ t ∷ [];
    })
unfolding tokens_in summaries_in
IsLedger-token base d t m h = record {
  events = h.events ++ NarrateEvent.token t ∷ [];
  sent = rw h.sent (append_assoc base h.events (NarrateEvent.token t ∷ []));
  tokens = tokens_in-append h.events (NarrateEvent.token t ∷ []) ∙ ap (λ l. l ++ t ∷ []) h.tokens;
  summaries =
      summaries_in-append h.events (NarrateEvent.token t ∷ [])
      ∙ append-nil (summaries_in h.events)
      ∙ h.summaries;
  pending = h.pending;
}

IsLedger-summary :
    (base : List NarrateEvent) (d : Drain) (s : StepSummary) (m : ℕ)
    → IsLedger base d
    → d.summary_open ≡ true
    → IsLedger base (record d {
      stream = record d.stream {
        sent = d.stream.sent ++ NarrateEvent.summary_ready s ∷ [];
        room = m;
      };
      summary_open = false;
      summary_result = some s;
    })
unfolding tokens_in summaries_in
IsLedger-summary base d s m h o = record {
  events = h.events ++ NarrateEvent.summary_ready s ∷ [];
  sent = rw h.sent (append_assoc base h.events (NarrateEvent.summary_ready s ∷ []));
  tokens =
      tokens_in-append h.events (NarrateEvent.summary_ready s ∷ [])
      ∙ append-nil (tokens_in h.events)
      ∙ h.tokens;
  summaries =
      summaries_in-append h.events (NarrateEvent.summary_ready s ∷ [])
      ∙ ap (λ l. l ++ s ∷ []) (h.summaries ∙ ap as_list (h.pending o));
  pending = λ e. cc;
}

Keeps-if :
    (base : List NarrateEvent) (b : Bool) (x y : Drained)
    → (b ≡ true → Keeps base x)
    → Keeps base y
    → Keeps base (if b then x else y)
Keeps-if base true x y hx hy = hx refl
Keeps-if base false x y hx hy = hy

token-Keeps :
    (base : List NarrateEvent) (d : Drain) (t : Bytes)
    → IsLedger base d
    → Keeps base (sent_token d t (send d.stream (NarrateEvent.token t)))
unfolding sent_token
token-Keeps base d t h = elim (send_cases d.stream (NarrateEvent.token t)) [
  | inl f ↦ subst (λ r. Keeps base (sent_token d t r)) (sym f) tt
  | inr (m, r, f) ↦ subst (λ r. Keeps base (sent_token d t r)) (sym f) (IsLedger-token base d t m h)
]

summary-Keeps :
    (base : List NarrateEvent) (d : Drain) (s : StepSummary)
    → IsLedger base d
    → d.summary_open ≡ true
    → Keeps base (sent_summary d s (send d.stream (NarrateEvent.summary_ready s)))
unfolding sent_summary
summary-Keeps base d s h o = elim (send_cases d.stream (NarrateEvent.summary_ready s)) [
  | inl f ↦ subst (λ r. Keeps base (sent_summary d s r)) (sym f) tt
  | inr (m, r, f) ↦
      subst (λ r. Keeps base (sent_summary d s r)) (sym f) (IsLedger-summary base d s m h o)
]

round-Keeps :
    (base : List NarrateEvent) (d : Drain) (a : Arrival) → IsLedger base d → Keeps base (round d a)
unfolding round
round-Keeps base d (token t) h =
    Keeps-if base d.tokens_open (sent_token d t (send d.stream (NarrateEvent.token t))) (waiting d)
      (λ e. token-Keeps base d t h) h
round-Keeps base d tokens_closed h = record {
  events = h.events;
  sent = h.sent;
  tokens = h.tokens;
  summaries = h.summaries;
  pending = h.pending;
}
round-Keeps base d (summary_done none) h =
    Keeps-if base d.summary_open (waiting (record d { summary_open = false })) (waiting d)
      (λ e. record {
        events = h.events;
        sent = h.sent;
        tokens = h.tokens;
        summaries = h.summaries;
        pending = λ f. cc;
      })
      h
round-Keeps base d (summary_done (some s)) h =
    Keeps-if base d.summary_open (sent_summary d s (send d.stream (NarrateEvent.summary_ready s)))
      (waiting d) (λ e. summary-Keeps base d s h e) h
round-Keeps base d cancelled h = tt

pub drain-Keeps :
    (base : List NarrateEvent) (d : Drain) (arrivals : List Arrival)
    → IsLedger base d
    → Keeps base (drain d arrivals)
unfolding drain
drain-Keeps base d [] h =
    Keeps-if base (d.tokens_open || d.summary_open) (waiting d) (finished d) (λ _. h) h
drain-Keeps base d (a ∷ rest) h =
    Keeps-if base (d.tokens_open || d.summary_open) _ (finished d)
      (λ _. after (round d a) (round-Keeps base d a h) (λ d' h'. drain-Keeps base d' rest h')) h
  where
    after :
        (r : Drained)
        → Keeps base r
        → ((d' : Drain) → IsLedger base d' → Keeps base (drain d' rest))
        → Keeps base (elim r [
          | finished d' ↦ finished d'
          | failed c st ↦ failed c st
          | waiting d' ↦ drain d' rest
        ])
    after (finished d') k ih = k
    after (failed c st) k ih = tt
    after (waiting d') k ih = ih d' k
