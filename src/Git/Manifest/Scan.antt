-- ===== src/Git/Manifest/Scan.antt =====
-- `bufio.Scanner` with its default split: the lines without their ends, up to a line that does not
-- fit the scanner's buffer of 64 KiB.
use codewalker.Prelude.{
  ℕ, zero, suc, ◌-◌, ◌≢◌, drop, Bool-cases, inl, inr, eq_iff, Bytes, List, [], ◌∷◌, leb, length,
  if◌then◌else◌, ◌==◌, true, false, ◌≡◌, refl, arith, ◌++◌, ◌≤◌, All, sym, ap, ◌∙◌, eqb, ◌≢◌, drop,
  suc,
}
use codewalker.Prelude.Strings.{split, trim_suffix, has_suffix}

-- The longest line that fits, its end not counted.
abbrev pub max_line : ℕ
max_line = 65535

-- What follows the last line end is a line only if it has a byte.
unfoldable pub scanned : List Bytes → List Bytes
unfolding trim_suffix
scanned [] = []
scanned ([] ∷ []) = []
scanned (text ∷ rest) =
    let lines = scanned rest in
    if leb (length text) max_line then trim_suffix text (13 ∷ []) ∷ lines else []

unfoldable pub scan_lines : Bytes → List Bytes
unfolding split scanned
scan_lines s = scanned (split s 10)

-- A line that the scanner returns as it stands.
abbrev pub IsPlain : ℕ → Type 0
IsPlain c = (c ≢ 10) × (c ≢ 13)

abbrev pub IsLine : Bytes → Type 0
IsLine l = All IsPlain l × (length l ≤ max_line)

-- A text file: each line with its end.
abbrev pub unlines : List Bytes → Bytes
unlines [] = []
unlines (l ∷ ls) = l ++ (10 ∷ unlines ls)

All-drop {κ} : (P : ℕ → Type κ) (n : ℕ) (s : Bytes) → All P s → All P (drop n s)
All-drop P zero s h = h
All-drop P (suc n) [] h = tt
All-drop P (suc n) (c ∷ s) (hc, h) = All-drop P n s h

abbrev first_byte : Bytes → ℕ
first_byte [] = 0
first_byte (c ∷ s) = c

trim_suffix-plain : (l : Bytes) → All IsPlain l → trim_suffix l (13 ∷ []) ≡ l
unfolding trim_suffix has_suffix
trim_suffix-plain l h = elim (Bool-cases (drop (length l - 1) l == 13 ∷ [])) [
  | inl e ↦
      let ends = (eq_iff (drop (length l - 1) l) (13 ∷ [])).0 e in
      absurd (ends_not (drop (length l - 1) l) (All-drop IsPlain (length l - 1) l h) ends)
  | inr e ↦ ground arith
]
  where
    ends_not : (s : Bytes) → All IsPlain s → s ≢ 13 ∷ []
    ends_not [] h e = cc
    ends_not (c ∷ s) ((_, hc), h) e = hc (ap first_byte e)

split-line : (l s : Bytes) → All IsPlain l → split (l ++ (10 ∷ s)) 10 ≡ l ∷ split s 10
unfolding split
split-line [] s h = refl
split-line (c ∷ l) s ((hc, _), h) =
    let other : eqb c 10 ≡ false = ground arith in rw (other, split-line l s h) refl

split-cons : (s : Bytes) → (p : Bytes) × (ps : List Bytes) × (split s 10 ≡ p ∷ ps)
unfolding split
split-cons [] = ([], [], refl)
split-cons (c ∷ s) =
    let (p, ps, parts) = split-cons s in
    elim (Bool-cases (eqb c 10)) [
      | inl e ↦ ([], split s 10, rw e refl)
      | inr e ↦ (c ∷ p, ps, rw (e, parts) refl)
    ]

scanned-cons :
    (l p : Bytes) (ps : List Bytes) → IsLine l → scanned (l ∷ p ∷ ps) ≡ l ∷ scanned (p ∷ ps)
unfolding scanned
scanned-cons [] p ps (h, fits) = rw (trim_suffix-plain [] h) refl
scanned-cons (c ∷ l) p ps (h, fits) =
    let short : leb (length (c ∷ l)) max_line ≡ true = ground arith in
    rw (short, trim_suffix-plain (c ∷ l) h) refl

-- A text file is scanned into its lines.
pub scan_lines-unlines : (ls : List Bytes) → All IsLine ls → scan_lines (unlines ls) ≡ ls
unfolding scan_lines scanned
scan_lines-unlines [] h = refl
scan_lines-unlines (l ∷ ls) ((hl, fits), h) =
    let (p, ps, parts) = split-cons (unlines ls) in
    ap scanned (split-line l (unlines ls) hl ∙ ap (◌∷◌ l) parts)
    ∙ scanned-cons l p ps (hl, fits)
    ∙ ap (◌∷◌ l) (ap scanned (sym parts) ∙ scan_lines-unlines ls h)
