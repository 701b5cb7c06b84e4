-- ===== src/Prelude/Strings/Space.antt =====
-- `strings.TrimSpace`, `Fields`, `TrimRight` at one byte, and `ToLower`.
use Prim.Native.Nat.{ℕ, ◌+◌, ◌<◌}
use mathlib.Core.Bool.{Bool, true, false, ◌&&◌, ◌||◌}
use mathlib.Core.Path.{◌≡◌, refl, sym, ap, ◌∙◌}
use native.Mathlib.Omega.{arith}
use codewalker.Prelude.Lists.{All}
use mathlib.Core.List.{append-nil, append_assoc, List, [], ◌∷◌, ◌++◌, map}
use codewalker.Prelude.Tests.{Bytes, eqb, leb, if◌then◌else◌}

unfoldable pub is_space : ℕ → Bool
is_space c = eqb c 32 || (leb 9 c && leb c 13)

trim_left : Bytes → Bytes
unfolding is_space
trim_left [] = []
trim_left (c ∷ s) = let rest = trim_left s in if is_space c then rest else c ∷ s

abbrev keep_if : Bool → ℕ → Bytes → Bytes
keep_if drops c [] = if drops then [] else c ∷ []
keep_if drops c (d ∷ s) = c ∷ d ∷ s

trim_right : Bytes → Bytes
unfolding is_space
trim_right [] = []
trim_right (c ∷ s) = keep_if (is_space c) c (trim_right s)

unfoldable pub trim_space : Bytes → Bytes
unfolding trim_left trim_right
trim_space s = trim_right (trim_left s)

-- `strings.TrimRight(s, b)` for a cutset of one byte
unfoldable pub trim_right_byte : Bytes → ℕ → Bytes
trim_right_byte [] b = []
trim_right_byte (c ∷ s) b = keep_if (eqb c b) c (trim_right_byte s b)

-- The word read so far, if there is one, and the words behind it.
abbrev emit : Bytes → List Bytes → List Bytes
emit [] words = words
emit (c ∷ s) words = (c ∷ s) ∷ words

fields_from : Bytes → Bytes → List Bytes
unfolding is_space
fields_from cur [] = emit cur []
fields_from cur (c ∷ s) = elim (is_space c) [
  | true ↦ emit cur (fields_from [] s)
  | false ↦ fields_from (cur ++ c ∷ []) s
]

unfoldable pub fields : Bytes → List Bytes
unfolding fields_from
fields s = fields_from [] s

abbrev lower : ℕ → ℕ
lower c = if leb b'A' c && leb c b'Z' then c + 32 else c

unfoldable pub to_lower : Bytes → Bytes
to_lower s = map lower s

-- A byte that is no white space, being above every white space.
abbrev pub IsInk : ℕ → Type 0
IsInk c = 32 < c

ink : (c : ℕ) → IsInk c → is_space c ≡ false
unfolding is_space
ink c h = ground arith

fields_from_word :
    (w cur rest : Bytes) → All IsInk w → fields_from cur (w ++ rest) ≡ fields_from (cur ++ w) rest
unfolding fields_from
fields_from_word [] cur rest h = rw append-nil refl
fields_from_word (c ∷ w) cur rest (hc, h) =
    rw (ink c hc, fields_from)
      (fields_from_word w (cur ++ c ∷ []) rest h
        ∙ ap (λ t. fields_from t rest) (append_assoc cur (c ∷ []) w))

fields_from_end : (c : ℕ) (w : Bytes) → fields_from (c ∷ w) [] ≡ (c ∷ w) ∷ []
unfolding fields_from
fields_from_end c w = refl

-- Two words with a space between them.
pub fields_two :
    (c d : ℕ) (v w : Bytes)
    → All IsInk (c ∷ v)
    → All IsInk (d ∷ w)
    → fields ((c ∷ v) ++ (32 ∷ (d ∷ w))) ≡ (c ∷ v) ∷ (d ∷ w) ∷ []
unfolding fields
fields_two c d v w hv hw =
    fields_from_word (c ∷ v) [] (32 ∷ (d ∷ w)) hv
    ∙ ap (λ l. (c ∷ v) ∷ l)
        (ap (fields_from []) (sym (append-nil (d ∷ w)))
          ∙ fields_from_word (d ∷ w) [] [] hw
          ∙ fields_from_end d w)

-- Two words, and what stands behind the space after them.
pub fields_more :
    (c d : ℕ) (v w rest : Bytes)
    → All IsInk (c ∷ v)
    → All IsInk (d ∷ w)
    → fields ((c ∷ v) ++ (32 ∷ (d ∷ w) ++ (32 ∷ rest))) ≡ (c ∷ v) ∷ (d ∷ w) ∷ fields rest
unfolding fields fields_from is_space
fields_more c d v w rest hv hw =
    fields_from_word (c ∷ v) [] (32 ∷ (d ∷ w) ++ (32 ∷ rest)) hv
    ∙ ap (λ l. (c ∷ v) ∷ l) (fields_from_word (d ∷ w) [] (32 ∷ rest) hw)

trim_right-ink : (c : ℕ) (w : Bytes) → All IsInk (c ∷ w) → trim_right (c ∷ w) ≡ c ∷ w
unfolding trim_right
trim_right-ink c [] (hc, _) = rw (ink c hc) refl
trim_right-ink c (d ∷ w) (hc, h) = rw (trim_right-ink d w h) refl

trim_right-append :
    (s : Bytes) (c : ℕ) (w : Bytes) → All IsInk (c ∷ w) → trim_right (s ++ (c ∷ w)) ≡ s ++ (c ∷ w)
unfolding trim_right
trim_right-append [] c w h = trim_right-ink c w h
trim_right-append (x ∷ []) c w h = rw (trim_right-ink c w h) refl
trim_right-append (x ∷ y ∷ s) c w h = rw (trim_right-append (y ∷ s) c w h) refl

-- White space in front goes, and a text between ink bytes stays.
pub trim_space-indent :
    (b c d : ℕ) (s w : Bytes)
    → is_space b ≡ true
    → IsInk c
    → All IsInk (d ∷ w)
    → trim_space (b ∷ c ∷ s ++ (d ∷ w)) ≡ c ∷ s ++ (d ∷ w)
unfolding trim_space trim_left
trim_space-indent b c d s w hb hc h = rw (hb, ink c hc) (trim_right-append (c ∷ s) d w h)

pub trim_space-ink :
    (c d : ℕ) (s w : Bytes)
    → IsInk c
    → All IsInk (d ∷ w)
    → trim_space (c ∷ s ++ (d ∷ w)) ≡ c ∷ s ++ (d ∷ w)
unfolding trim_space trim_left
trim_space-ink c d s w hc h = rw (ink c hc) (trim_right-append (c ∷ s) d w h)

trim_right-keep :
    (b : Bool) (c : ℕ) (s : Bytes)
    → is_space c ≡ b
    → trim_right s ≡ s
    → trim_right (keep_if b c s) ≡ keep_if b c s
unfolding trim_right
trim_right-keep true c [] h e = refl
trim_right-keep false c [] h e = rw h refl
trim_right-keep b c (d ∷ s) h e = rw e refl

trim_right_twice : (s : Bytes) → trim_right (trim_right s) ≡ trim_right s
unfolding trim_right
trim_right_twice [] = refl
trim_right_twice (c ∷ s) = trim_right-keep (is_space c) c (trim_right s) refl (trim_right_twice s)

trim_right-behind :
    (s : Bytes) (c : ℕ) (w : Bytes)
    → trim_right (c ∷ w) ≡ c ∷ w
    → trim_right (s ++ (c ∷ w)) ≡ s ++ (c ∷ w)
unfolding trim_right
trim_right-behind [] c w h = h
trim_right-behind (x ∷ []) c w h = rw h refl
trim_right-behind (x ∷ y ∷ s) c w h = rw (trim_right-behind (y ∷ s) c w h) refl

-- A text that starts with no white space, and ends with a trimmed one, is trimmed.
pub trim_space-behind :
    (b c : ℕ) (s w : Bytes)
    → is_space b ≡ false
    → trim_space (c ∷ w) ≡ c ∷ w
    → trim_space (b ∷ s ++ (c ∷ w)) ≡ b ∷ s ++ (c ∷ w)
unfolding trim_space trim_left
trim_space-behind b c s w hb h = rw hb (
    trim_right-behind (b ∷ s) c w
      (ap trim_right (sym h) ∙ trim_right_twice (trim_left (c ∷ w)) ∙ h))

pub trim_space-space : (s : Bytes) → trim_space (32 ∷ s) ≡ trim_space s
unfolding trim_space trim_left
trim_space-space s = refl
