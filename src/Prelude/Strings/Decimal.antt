-- ===== src/Prelude/Strings/Decimal.antt =====
-- `%d` and `strconv.Atoi` for a 64-bit `int`.
pub mod RoundTrip
use Prim.Native.Nat.{ℕ, zero, suc, ◌+◌, ◌-◌, ◌*◌, ◌/◌, ◌%◌, ◌^◌, ◌<◌}
use mathlib.Core.Bool.{◌&&◌}
use mathlib.Core.Option.{Option, none, some}
use mathlib.Core.Path.{◌≡◌, refl, ◌∙◌}
use mathlib.Core.List.{[], ◌∷◌}
use mathlib.Core.Logic.{inl, inr}
use native.Mathlib.Omega.{arith}
use codewalker.Prelude.Tests.{Bytes, bytes, ltb, leb, eqb, if◌then◌else◌, Bool-cases}
use codewalker.Prelude.Int.{ℤ, pos, negsuc}

-- One digit a round, the last first; `fuel` bounds the rounds.
digits : ℕ → ℕ → Bytes → Bytes
digits zero n out = out
digits (suc fuel) n out =
    let rest = digits fuel (n / 10) ((b'0' + n % 10) ∷ out) in
    if ltb n 10 then (b'0' + n) ∷ out else rest

-- A number has at most as many digits as its value and one more.
unfoldable pub format : ℕ → Bytes
unfolding digits
format n = digits (suc n) n []

unfoldable pub itoa : ℤ → Bytes
unfolding format
itoa (pos n) = format n
itoa (negsuc n) = b'-' ∷ format (suc n)

-- The number that digits spell behind `n`.
scan : Bytes → ℕ → Option ℕ
scan [] n = some n
scan (c ∷ s) n = if leb b'0' c && leb c b'9' then scan s (n * 10 + (c - b'0')) else none

unsigned : Bytes → Option ℕ
unfolding scan
unsigned [] = none
unsigned (c ∷ s) = scan (c ∷ s) 0

-- The value in the range of an `int`; out of range is an error.
positive : Option ℕ → Option ℤ
positive none = none
positive (some n) = if ltb n (2 ^ 63) then some (pos n) else none

negative : Option ℕ → Option ℤ
negative none = none
negative (some zero) = some (pos 0)
negative (some (suc n)) = if ltb n (2 ^ 63) then some (negsuc n) else none

unfoldable pub atoi : Bytes → Option ℤ
unfolding unsigned positive negative
atoi [] = none
atoi (c ∷ s) =
    if eqb c b'-'
    then negative (unsigned s)
    else if eqb c b'+'
    then positive (unsigned s)
    else positive (unsigned (c ∷ s))

atoi_tests :
    (atoi (bytes "42") ≡ some (pos 42))
    × (atoi (bytes "-7") ≡ some (negsuc 6))
    × (atoi (bytes "+7") ≡ some (pos 7))
    × (atoi (bytes "4x") ≡ none)
    × (atoi (bytes "-") ≡ none)
    × (atoi (bytes "9223372036854775808") ≡ none)
    × (itoa (pos 1200) ≡ bytes "1200")
    × (itoa (negsuc 0) ≡ bytes "-1")
unfolding atoi itoa
atoi_tests = (refl, refl, refl, refl, refl, refl, refl, refl)
