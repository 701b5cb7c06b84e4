-- ===== src/Prelude/Strings/Decimal/RoundTrip.antt =====
-- `%d` and `Atoi` undo one another.
use Prim.Native.Nat.{ℕ, zero, suc, ◌+◌, ◌/◌, ◌%◌, ◌^◌, ◌<◌, ◌≤◌}
use mathlib.Core.Option.{some}
use mathlib.Core.Bool.{false}
use mathlib.Core.Path.{◌≡◌, refl, ap, ◌∙◌, subst}
use mathlib.Core.List.{[], ◌∷◌}
use mathlib.Core.Logic.{◌≢◌, inl, inr}
use native.Mathlib.Omega.{arith}
use codewalker.Prelude.Tests.{Bytes, ltb, Bool-cases}
use codewalker.Prelude.Lists.{All}
use codewalker.Prelude.Int.{ℤ, pos, negsuc}
use codewalker.Prelude.Strings.Decimal.{digits, format, itoa, scan, unsigned, atoi, eqb}

abbrev IsDigit : ℕ → Type 0
IsDigit c = (b'0' ≤ c) × (c ≤ b'9')

scan-digits : (fuel n : ℕ) (out : Bytes) → n < fuel → scan (digits fuel n out) 0 ≡ scan out n
unfolding scan digits
scan-digits zero n out h = absurd (omega arith)
scan-digits (suc fuel) n out h = elim (Bool-cases (ltb n 10)) [
  | inl last ↦ rw last (ground arith)
  | inr more ↦
      rw more (scan-digits fuel (n / 10) ((b'0' + n % 10) ∷ out) (ground arith) ∙ ground arith)
]

digits-IsDigit : (fuel n : ℕ) (out : Bytes) → All IsDigit out → All IsDigit (digits fuel n out)
unfolding digits
digits-IsDigit zero n out h = h
digits-IsDigit (suc fuel) n out h = elim (Bool-cases (ltb n 10)) [
  | inl last ↦ rw last ((omega arith, ground arith), h)
  | inr more ↦
      rw more (digits-IsDigit fuel (n / 10) ((b'0' + n % 10) ∷ out) ((omega arith, omega arith), h))
]

digits-ne-nil : (fuel n : ℕ) (out : Bytes) → out ≢ [] → digits fuel n out ≢ []
unfolding digits
digits-ne-nil zero n out h = h
digits-ne-nil (suc fuel) n out h = elim (Bool-cases (ltb n 10)) [
  | inl last ↦ rw last cc
  | inr more ↦ rw more (digits-ne-nil fuel (n / 10) ((b'0' + n % 10) ∷ out) cc)
]

scan-format : (n : ℕ) → scan (format n) 0 ≡ some n
unfolding format scan
scan-format n = scan-digits (suc n) n [] (omega arith)

format-ne-nil : (n : ℕ) → format n ≢ []
unfolding format
format-ne-nil n = elim (Bool-cases (ltb n 10)) [
  | inl last ↦ rw last cc
  | inr more ↦ rw more (digits-ne-nil n (n / 10) ((b'0' + n % 10) ∷ []) cc)
]

-- The first byte of a number is a digit.
format-cons : (n : ℕ) → (c : ℕ) × (s : Bytes) × (format n ≡ c ∷ s) × IsDigit c
format-cons n = go (format n) (format-ne-nil n) (unfold format in digits-IsDigit (suc n) n [] tt)
  where
    go : (t : Bytes) → t ≢ [] → All IsDigit t → (c : ℕ) × (s : Bytes) × (t ≡ c ∷ s) × IsDigit c
    go [] h d = absurd (h refl)
    go (c ∷ s) h d = (c, s, refl, d.0)

format-injective : (m n : ℕ) → format m ≡ format n → m ≡ n
format-injective m n e = cc (scan-format m, scan-format n, ap (λ s. scan s 0) e)

-- Two integers with one print are equal.
pub itoa-injective : (a b : ℤ) → itoa a ≡ itoa b → a ≡ b
unfolding itoa
itoa-injective (pos m) (pos n) e = ap pos (format-injective m n e)
itoa-injective (pos m) (negsuc n) e = let (c, s, p, d) = format-cons m in absurd (ground arith)
itoa-injective (negsuc m) (pos n) e = let (c, s, p, d) = format-cons n in absurd (ground arith)
itoa-injective (negsuc m) (negsuc n) e =
    let h = format-injective (suc m) (suc n) (cc) in ap negsuc (omega arith)

-- The range of a 64-bit `int`.
abbrev pub FitsInt : ℤ → Type 0
FitsInt (pos n) = n < 2 ^ 63
FitsInt (negsuc n) = n < 2 ^ 63

unsigned-scan : (s : Bytes) → s ≢ [] → unsigned s ≡ scan s 0
unfolding unsigned
unsigned-scan [] h = absurd (h refl)
unsigned-scan (c ∷ s) h = refl

unsigned-format : (n : ℕ) → unsigned (format n) ≡ some n
unsigned-format n = unsigned-scan (format n) (format-ne-nil n) ∙ scan-format n

-- `Atoi` reads back what `%d` prints of an `int`.
pub atoi-itoa : (a : ℤ) → FitsInt a → atoi (itoa a) ≡ some a
unfolding atoi itoa
atoi-itoa (pos n) h =
    let (c, s, p, d) = format-cons n in let u = unsigned-format n in rw p (ground (arith, u, p))
atoi-itoa (negsuc n) h = ground (arith, unsigned-format (suc n))

digits-Lacks : (s : Bytes) → All IsDigit s → All (λ c. c ≢ b':') s
digits-Lacks [] h = tt
digits-Lacks (c ∷ s) (hc, h) = (omega arith, digits-Lacks s h)

-- The print of an integer holds no colon.
pub itoa_no_colon : (a : ℤ) → All (λ c. c ≢ b':') (itoa a)
unfolding itoa format
itoa_no_colon (pos n) = digits-Lacks (format n) (digits-IsDigit (suc n) n [] tt)
itoa_no_colon (negsuc n) =
    (omega arith, digits-Lacks (format (suc n)) (digits-IsDigit (suc (suc n)) (suc n) [] tt))

digits_no_slash : (s : Bytes) → All IsDigit s → All (λ c. eqb c b'/' ≡ false) s
digits_no_slash [] h = tt
digits_no_slash (c ∷ s) (hc, h) = (ground arith, digits_no_slash s h)

-- The print of an integer begins with a byte, and holds no slash.
pub itoa_no_slash :
    (a : ℤ)
    → (c : ℕ) × (s : Bytes) × (itoa a ≡ c ∷ s)
      × (eqb c b'/' ≡ false)
      × All (λ c. eqb c b'/' ≡ false) s
unfolding itoa
itoa_no_slash (pos n) =
    let (c, s, p, d) = format-cons n in
    let h : All (λ c. eqb c b'/' ≡ false) (c ∷ s) =
      subst (All (λ c. eqb c b'/' ≡ false)) p
        (unfold format in digits_no_slash (format n) (digits-IsDigit (suc n) n [] tt)) in
    (c, s, p, h.0, h.1)
itoa_no_slash (negsuc n) = (
  b'-',
  format (suc n),
  refl,
  refl,
  unfold format in digits_no_slash (format (suc n)) (digits-IsDigit (suc (suc n)) (suc n) [] tt),
)

-- The bytes of a number: a minus sign or a digit.
abbrev pub IsNumeric : Bytes → Type 0
IsNumeric = All (λ c. (b'-' ≤ c) × (c ≤ b'9'))

digits-IsNumeric : (s : Bytes) → All IsDigit s → IsNumeric s
digits-IsNumeric [] h = tt
digits-IsNumeric (c ∷ s) (hc, h) = ((omega arith, omega arith), digits-IsNumeric s h)

pub itoa-IsNumeric : (a : ℤ) → IsNumeric (itoa a)
unfolding itoa format
itoa-IsNumeric (pos n) = digits-IsNumeric (format n) (digits-IsDigit (suc n) n [] tt)
itoa-IsNumeric (negsuc n) = (
  (omega arith, omega arith),
  digits-IsNumeric (format (suc n)) (digits-IsDigit (suc (suc n)) (suc n) [] tt),
)
