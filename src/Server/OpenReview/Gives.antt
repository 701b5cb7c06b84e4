-- ===== src/Server/OpenReview/Gives.antt =====
-- server/open_session.go and server/open_review_session.go: a chain of calls that may fail gives
-- what its last call gives.
use codewalker.Prelude.{Result, ok, err, ◌≡◌, refl}
use codewalker.Server.Stream.{Code, Stream, then_send}
use codewalker.Server.OpenReview.{SessionEvent, then_with}

-- What a call gives has a property, if it gives something.
abbrev pub Gives {ℓ} : {A : Type ℓ} → (A → Type 0) → Stream SessionEvent × Result Code A → Type ℓ
Gives {A = A} P x = (a : A) → x.1 ≡ ok a → P a

pub then_send-Gives {ℓ} :
    {A : Type ℓ} (P : A → Type 0) (m : Stream SessionEvent × Result Code (Unit {0}))
    (k : Stream SessionEvent → Stream SessionEvent × Result Code A)
    → ((s : Stream SessionEvent) → Gives P (k s))
    → Gives P (then_send m k)
then_send-Gives P (s, ok _) k h = h s
then_send-Gives P (s, err c) k h = λ a q. cc

pub then_with-Gives {ℓ κ} :
    {A : Type ℓ} {B : Type κ} (P : B → Type 0) (s : Stream SessionEvent) (r : Result Code A)
    (k : A → Stream SessionEvent × Result Code B)
    → ((a : A) → r ≡ ok a → Gives P (k a))
    → Gives P (then_with s r k)
then_with-Gives P s (ok a) k h = h a refl
then_with-Gives P s (err c) k h = λ a q. cc
