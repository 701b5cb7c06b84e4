-- ===== src/Prelude/Strings/Split.antt =====
-- `strings.Split` and `SplitN` at one byte, and `strings.Join`.
use Prim.Native.Nat.{ℕ, zero, suc}
use mathlib.Core.Path.{◌≡◌, refl}
use native.Mathlib.Omega.{arith}
use mathlib.Core.Option.{Option, none, some}
use mathlib.Core.Bool.{Bool, true, false, ◌||◌}
use mathlib.Core.List.{List, [], ◌∷◌, ◌++◌}
use codewalker.Prelude.Tests.{Bytes, eqb, if◌then◌else◌}

-- A byte in front of the first part.
abbrev pub push : ℕ → List Bytes → List Bytes
push c [] = (c ∷ []) ∷ []
push c (p ∷ ps) = (c ∷ p) ∷ ps

unfoldable pub split : Bytes → ℕ → List Bytes
split [] sep = [] ∷ []
split (c ∷ s) sep = let rest = split s sep in if eqb c sep then [] ∷ rest else push c rest

-- At most `n` parts; the last is what is left.
unfoldable pub split_n : Bytes → ℕ → ℕ → List Bytes
split_n s sep zero = []
split_n s sep (suc zero) = s ∷ []
split_n [] sep (suc (suc n)) = [] ∷ []
split_n (c ∷ s) sep (suc (suc n)) = elim (eqb c sep) [
  | true ↦ [] ∷ split_n s sep (suc n)
  | false ↦ push c (split_n s sep (suc (suc n)))
]

unfoldable pub join : List Bytes → Bytes → Bytes
join [] sep = []
join (p ∷ []) sep = p
join (p ∷ q ∷ ps) sep = p ++ (sep ++ join (q ∷ ps) sep)

abbrev cut_before : ℕ → Option (Bytes × Bytes) → Option (Bytes × Bytes)
cut_before c none = none
cut_before c (some (before, after)) = some (c ∷ before, after)

-- `strings.Cut` at one byte; `none` if the text does not have it.
unfoldable pub cut : Bytes → ℕ → Option (Bytes × Bytes)
cut [] sep = none
cut (c ∷ s) sep = let later = cut_before c (cut s sep) in if eqb c sep then some ([], s) else later

unfoldable pub has_byte : Bytes → ℕ → Bool
has_byte [] b = false
has_byte (c ∷ s) b = eqb c b || has_byte s b

pub has_byte-append :
    (s t : Bytes) (b : ℕ)
    → has_byte s b ≡ false
    → has_byte t b ≡ false
    → has_byte (s ++ t) b ≡ false
unfolding has_byte
has_byte-append [] t b hs ht = ht
has_byte-append (c ∷ s) t b hs ht = ground (arith, has_byte-append s t b)

-- The first part, up to its separator.
pub split-part :
    (p s : Bytes) (sep : ℕ) → has_byte p sep ≡ false → split (p ++ (sep ∷ s)) sep ≡ p ∷ split s sep
unfolding split has_byte
split-part [] s sep h = ground arith
split-part (c ∷ p) s sep h =
    let here : eqb c sep ≡ false = ground arith in
    let later : has_byte p sep ≡ false = ground arith in rw (here, split-part p s sep later) refl
