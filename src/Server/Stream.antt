-- ===== src/Server/Stream.antt =====
-- What a handler sees of gRPC: the codes of google.golang.org/grpc/codes that the server uses, and
-- the server's end of a stream.
use codewalker.Prelude.{
  ◌<◌, arith, ◌≡◌, refl, ◌⊎◌, inl, inr, ℕ, zero, suc, List, [], ◌∷◌, ◌++◌, Result, ok, err,
}

-- The code of a failed call. `context_done` stands for `status.FromContextError`, and `send_failed`
-- for the error that `stream.Send` returned. The messages of the statuses are not modelled.
pub data Code : Type 0 where
  invalid_argument not_found internal failed_precondition permission_denied : Code
  context_done send_failed : Code

-- `sent` are the events that the client was sent. The stream breaks after `room` more sends, and its
-- context ends after `life` more times that the handler looks at it: the environment chooses both.
pub record Stream {ℓ} (E : Type ℓ) : Type ℓ where
  pub sent : List E
  pub room : ℕ
  pub life : ℕ

module _ {ℓ} {E : Type ℓ} where
  with_room : ℕ → Stream E → E → Stream E × Result Code (Unit {0})
  with_room zero s e = (s, err send_failed)
  with_room (suc n) s e = (record s { sent = s.sent ++ e ∷ []; room = n }, ok tt)

  -- `stream.Send(e)`
  unfoldable pub send : Stream E → E → Stream E × Result Code (Unit {0})
  unfolding with_room
  send s e = with_room s.room s e

  with_life : ℕ → Stream E → Stream E × Result Code (Unit {0})
  with_life zero s = (s, err context_done)
  with_life (suc n) s = (record s { life = n }, ok tt)

  -- `stream.Context().Err()`
  unfoldable pub check_context : Stream E → Stream E × Result Code (Unit {0})
  unfolding with_life
  check_context s = with_life s.life s

  -- A send and what follows if it succeeded.
  abbrev pub then_send {κ} :
      {A : Type κ}
      → Stream E × Result Code (Unit {0})
      → (Stream E → Stream E × Result Code A)
      → Stream E × Result Code A
  then_send (s, ok _) k = k s
  then_send (s, err c) k = (s, err c)

  with_room_cases :
      (n : ℕ) (s : Stream E) (e : E)
      → (with_room n s e ≡ (s, err send_failed))
        ⊎ ((m : ℕ) × (n ≡ suc m)
            × (with_room n s e ≡ (record s { sent = s.sent ++ e ∷ []; room = m }, ok tt)))
  unfolding with_room
  with_room_cases zero s e = inl refl
  with_room_cases (suc m) s e = inr (m, refl, refl)

  -- A send fails and sends nothing, or appends the event.
  pub send_cases :
      (s : Stream E) (e : E)
      → (send s e ≡ (s, err send_failed))
        ⊎ ((m : ℕ) × (s.room ≡ suc m)
            × (send s e ≡ (record s { sent = s.sent ++ e ∷ []; room = m }, ok tt)))
  unfolding send
  send_cases s e = with_room_cases s.room s e

  with_life_enough :
      (n : ℕ) (s : Stream E)
      → 0 < n
      → (m : ℕ) × (n ≡ suc m) × (with_life n s ≡ (record s { life = m }, ok tt))
  unfolding with_life
  with_life_enough zero s h = absurd (omega arith)
  with_life_enough (suc m) s h = (m, refl, refl)

  pub check_enough :
      (s : Stream E)
      → 0 < s.life
      → (m : ℕ) × (s.life ≡ suc m) × (check_context s ≡ (record s { life = m }, ok tt))
  unfolding check_context
  check_enough s h = with_life_enough s.life s h

  pub send_enough :
      (s : Stream E) (e : E)
      → 0 < s.room
      → (m : ℕ) × (s.room ≡ suc m)
        × (send s e ≡ (record s { sent = s.sent ++ e ∷ []; room = m }, ok tt))
  send_enough s e h = go s.room refl h
    where
      go :
          (n : ℕ)
          → s.room ≡ n
          → 0 < n
          → (m : ℕ) × (s.room ≡ suc m)
            × (send s e ≡ (record s { sent = s.sent ++ e ∷ []; room = m }, ok tt))
      go zero q h = absurd (omega arith)
      go (suc m) q h = (m, q, unfold send in rw (q, with_room) refl)
