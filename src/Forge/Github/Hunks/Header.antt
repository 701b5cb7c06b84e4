-- ===== src/Forge/Github/Hunks/Header.antt =====
-- A hunk header as a diff tool prints it is read back.
use codewalker.Prelude.{
  ◌>>=◌, ℕ, ◌≤◌, Bytes, bytes, List, [], ◌∷◌, ◌++◌, Option, some, ok, ◌≡◌, ◌≢◌, refl, ap, ◌∙◌,
  arith, length, take, All, All-append,
}
use codewalker.Prelude.Int.{ℤ}
use codewalker.Prelude.Strings.{index, itoa, fields, IsInk, fields_two}
use codewalker.Prelude.Strings.Decimal.RoundTrip.{FitsInt, atoi-itoa, itoa-IsNumeric, IsNumeric}
use codewalker.Forge.{Hunk}
use codewalker.Forge.Github.Hunks.{
  no_closing, cut_byte, parse_hunk_range, parse_hunk_header, header_ranges, or_error,
}

-- "3,5" behind a sign
pub render_range : ℕ → ℤ → ℤ → Bytes
render_range sign start count = sign ∷ (itoa start ++ (b',' ∷ itoa count))

-- "@@ -3,5 +3,6 @@ section"
pub render_header : Hunk → Bytes → Bytes
unfolding render_range
render_header h section =
    bytes "@@ "
    ++ ((render_range b'-' h.old_start h.old_lines
          ++ (32 ∷ render_range b'+' h.new_start h.new_lines))
        ++ (bytes " @@" ++ section))

cut_byte-append : (x y : Bytes) (b : ℕ) → All (λ c. c ≢ b) x → cut_byte (x ++ b ∷ y) b ≡ some (x, y)
unfolding cut_byte
cut_byte-append [] y b h = ground arith
cut_byte-append (c ∷ x) y b (hc, h) = ground (arith, cut_byte-append x y b h)

no_comma : (s : Bytes) → IsNumeric s → All (λ c. c ≢ b',') s
no_comma [] h = tt
no_comma (c ∷ s) (hc, h) = (omega arith, no_comma s h)

parse-render_range :
    (sign : ℕ) (a b : ℤ)
    → FitsInt a
    → FitsInt b
    → parse_hunk_range (render_range sign a b) ≡ some (a, b)
unfolding parse_hunk_range render_range
parse-render_range sign a b ha hb =
    rw (cut_byte-append (itoa a) (itoa b) b',' (no_comma (itoa a) (itoa-IsNumeric a)))
      (ground (arith, atoi-itoa a ha, atoi-itoa b hb))

index-closing :
    (x rest : Bytes)
    → All (λ c. c ≢ b'@') x
    → index (x ++ (bytes " @@" ++ rest)) (bytes " @@") ≡ some (length x)
unfolding index
index-closing [] rest h = refl
index-closing (c ∷ []) rest (hc, h) = ground arith
index-closing (c ∷ d ∷ x) rest (hc, (hd, h)) = ground (arith, index-closing (d ∷ x) rest (hd, h))

take-append : (x rest : Bytes) → take (length x) (x ++ rest) ≡ x
take-append [] rest = refl
take-append (c ∷ x) rest = ap (◌∷◌ c) (take-append x rest)

-- Every byte of a range is one of + , - and the digits, and what the program looks for is not.
abbrev IsPlain : Bytes → Type 0
IsPlain = All (λ c. (b'+' ≤ c) × (c ≤ b'9'))

numeric-IsPlain : (s : Bytes) → IsNumeric s → IsPlain s
numeric-IsPlain [] h = tt
numeric-IsPlain (c ∷ s) (hc, h) = ((omega arith, omega arith), numeric-IsPlain s h)

range-IsPlain : (sign : ℕ) (a b : ℤ) → b'+' ≤ sign → sign ≤ b'9' → IsPlain (render_range sign a b)
unfolding render_range
range-IsPlain sign a b lo hi = (
  (lo, hi),
  All-append (λ c. (b'+' ≤ c) × (c ≤ b'9')) (itoa a) (b',' ∷ itoa b)
      (numeric-IsPlain (itoa a) (itoa-IsNumeric a))
      ((omega arith, omega arith), numeric-IsPlain (itoa b) (itoa-IsNumeric b)),
)

plain-IsInk : (s : Bytes) → IsPlain s → All IsInk s
plain-IsInk [] h = tt
plain-IsInk (c ∷ s) (hc, h) = (omega arith, plain-IsInk s h)

plain-no_at : (s : Bytes) → IsPlain s → All (λ c. c ≢ b'@') s
plain-no_at [] h = tt
plain-no_at (c ∷ s) (hc, h) = (omega arith, plain-no_at s h)

fields_ranges :
    (a b c d : ℤ)
    → fields (render_range b'-' a b ++ (32 ∷ render_range b'+' c d))
      ≡ render_range b'-' a b ∷ render_range b'+' c d ∷ []
fields_ranges a b c d =
    let u = plain-IsInk _ (range-IsPlain b'-' a b (omega arith) (omega arith)) in
    let v = plain-IsInk _ (range-IsPlain b'+' c d (omega arith) (omega arith)) in
    unfold render_range in
    fields_two b'-' b'+' _ _ (unfold render_range in u) (unfold render_range in v)

header_of :
    (x section : Bytes) (words : List Bytes)
    → All (λ c. c ≢ b'@') x
    → fields x ≡ words
    → parse_hunk_header (bytes "@@ " ++ (x ++ (bytes " @@" ++ section))) ≡ header_ranges words
unfolding parse_hunk_header
header_of x section words plain h =
    let rest = x ++ (bytes " @@" ++ section) in
    ap (λ (o : Option ℕ). or_error no_closing o >>= λ end. header_ranges (fields (take end rest)))
      (index-closing x section plain)
    ∙ ap (λ t. header_ranges (fields t)) (take-append x (bytes " @@" ++ section))
    ∙ ap header_ranges h

ranges_of :
    (h : Hunk)
    → FitsInt h.old_start
    → FitsInt h.old_lines
    → FitsInt h.new_start
    → FitsInt h.new_lines
    → header_ranges
        (render_range b'-' h.old_start h.old_lines ∷ render_range b'+' h.new_start h.new_lines ∷ [])
      ≡ ok (record h { raw_diff = [] })
unfolding header_ranges
ranges_of h a b c d = rw (
  parse-render_range b'-' h.old_start h.old_lines a b,
  parse-render_range b'+' h.new_start h.new_lines c d,
)

-- The header of a hunk whose numbers fit an `int` is parsed into those numbers, whatever heading
-- stands behind it.
pub parse-render_header :
    (h : Hunk) (section : Bytes)
    → FitsInt h.old_start
    → FitsInt h.old_lines
    → FitsInt h.new_start
    → FitsInt h.new_lines
    → parse_hunk_header (render_header h section) ≡ ok (record h { raw_diff = [] })
parse-render_header h section a b c d =
    let old = render_range b'-' h.old_start h.old_lines in
    let new = render_range b'+' h.new_start h.new_lines in
    let no_at : All (λ c. c ≢ b'@') (old ++ (32 ∷ new)) =
      All-append (λ c. c ≢ b'@') old (32 ∷ new)
        (plain-no_at old (range-IsPlain b'-' h.old_start h.old_lines (omega arith) (omega arith)))
        (
          omega arith,
          plain-no_at new (range-IsPlain b'+' h.new_start h.new_lines (omega arith) (omega arith)),
        ) in
    unfold render_header in
    (header_of (old ++ (32 ∷ new)) section (old ∷ new ∷ []) no_at
        (fields_ranges h.old_start h.old_lines h.new_start h.new_lines)
      ∙ ranges_of h a b c d)
