-- ===== src/Forge/Github/Hunks/Lossless.antt =====
-- No line of a patch is lost: the hunks spell the lines from the first header on.
use mathlib.Core.Option
use codewalker.Prelude.Strings.{split}
use codewalker.Prelude.{
  ◌⊎◌, Option, none, some, Result, ok, err, ◌≡◌, refl, sym, ap, ◌∙◌, arith, length, length-append,
  ◌+◌, append_assoc, append-nil, Bool-cases, inl, inr, ℕ, suc, Bytes, bytes, Bool, List, [], ◌∷◌,
  ◌++◌, if◌then◌else◌,
}
use codewalker.Prelude.Strings.{has_prefix}
use codewalker.Forge.{Hunk}
use codewalker.Forge.Github.Hunks.{
  HunkError, with_line, flush, parse_hunk_header, parse_lines, parse_hunks,
}

abbrev pub is_header : Bytes → Bool
is_header line = has_prefix line (bytes "@@")

-- The lines, each with its end.
pub unlines : List Bytes → Bytes
unlines [] = []
unlines (l ∷ lines) = l ++ (b'\n' ∷ unlines lines)

-- The lines from the first header on.
pub from_header : List Bytes → List Bytes
from_header [] = []
from_header (l ∷ lines) = if is_header l then l ∷ lines else from_header lines

pub raw_diffs : List Hunk → Bytes
raw_diffs [] = []
raw_diffs (h ∷ hunks) = h.raw_diff ++ raw_diffs hunks

pub count_headers : List Bytes → ℕ
count_headers [] = 0
count_headers (l ∷ lines) = if is_header l then suc (count_headers lines) else count_headers lines

raw_diffs-append : (a b : List Hunk) → raw_diffs (a ++ b) ≡ raw_diffs a ++ raw_diffs b
unfolding raw_diffs
raw_diffs-append [] b = refl
raw_diffs-append (h ∷ a) b =
    rw (raw_diffs-append a b) (sym (append_assoc h.raw_diff (raw_diffs a) (raw_diffs b)))

raw_diffs-snoc :
    (hunks : List Hunk) (h : Hunk) → raw_diffs (hunks ++ h ∷ []) ≡ raw_diffs hunks ++ h.raw_diff
unfolding raw_diffs
raw_diffs-snoc hunks h =
    raw_diffs-append hunks (h ∷ []) ∙ ap (λ l. raw_diffs hunks ++ l) (append-nil h.raw_diff)

snoc_line :
    (h : Hunk) (line : Bytes) (rest : Bytes) (before : Bytes)
    → before ++ ((with_line h line).raw_diff ++ rest)
      ≡ before ++ (h.raw_diff ++ (line ++ (b'\n' ∷ rest)))
snoc_line h line rest before = simp append_assoc

Result-cases :
    (r : Result HunkError Hunk) → ((e : HunkError) × (r ≡ err e)) ⊎ ((h : Hunk) × (r ≡ ok h))
Result-cases (err e) = inl (e, refl)
Result-cases (ok h) = inr (h, refl)

same_length :
    (hunks : List Hunk) (current : Option Hunk) (l : Bytes)
    → length (flush hunks (Option.map (λ h. with_line h l) current)) ≡ length (flush hunks current)
unfolding flush
same_length hunks none l = refl
same_length hunks (some c) l =
    length-append hunks (with_line c l ∷ []) ∙ sym (length-append hunks (c ∷ []))

parse_lines_open :
    (lines : List Bytes) (hunks : List Hunk) (c : Hunk) {hs : List Hunk}
    → parse_lines lines hunks (some c) ≡ ok hs
    → raw_diffs hs ≡ raw_diffs hunks ++ (c.raw_diff ++ unlines lines)
unfolding parse_lines flush unlines
parse_lines_open [] hunks c {hs} e =
    let same : hunks ++ c ∷ [] ≡ hs = cc in
    rw (← same)
      (raw_diffs-snoc hunks c ∙ ap (λ l. raw_diffs hunks ++ l) (sym (append-nil c.raw_diff)))
parse_lines_open (l ∷ lines) hunks c {hs} e = elim (Bool-cases (is_header l)) [
  | inr p ↦
      let e' : parse_lines lines hunks (some (with_line c l)) ≡ ok hs = rw p at e in
      parse_lines_open lines hunks (with_line c l) e'
      ∙ snoc_line c l (unlines lines) (raw_diffs hunks)
  | inl p ↦ elim (Result-cases (parse_hunk_header l)) [
    | inl (f, q) ↦ absurd (ground arith)
    | inr (h, q) ↦
        let c' : Hunk = record h { raw_diff = l ++ b'\n' ∷ [] } in
        let e' : parse_lines lines (hunks ++ c ∷ []) (some c') ≡ ok hs = ground arith in
        parse_lines_open lines (hunks ++ c ∷ []) c' e' ∙ rw raw_diffs-snoc (simp append_assoc)
  ]
]

parse_lines_closed :
    (lines : List Bytes) {hs : List Hunk}
    → parse_lines lines [] none ≡ ok hs
    → raw_diffs hs ≡ unlines (from_header lines)
unfolding parse_lines flush unlines from_header raw_diffs
parse_lines_closed [] {hs} e = let same : [] ≡ hs = cc in rw (← same) refl
parse_lines_closed (l ∷ lines) {hs} e = elim (Bool-cases (is_header l)) [
  | inr p ↦ rw p (parse_lines_closed lines (rw p at e))
  | inl p ↦ rw p (elim (Result-cases (parse_hunk_header l)) [
    | inl (f, q) ↦ absurd (ground arith)
    | inr (h, q) ↦
        let c' : Hunk = record h { raw_diff = l ++ b'\n' ∷ [] } in
        let e' : parse_lines lines [] (some c') ≡ ok hs = ground arith in
        parse_lines_open lines [] c' e' ∙ append_assoc l (b'\n' ∷ []) (unlines lines)
  ])
]

-- The diffs of the parsed hunks, one behind the other, are the lines of the patch from its first
-- header line on, each with its end: no line is lost, moved or changed.
pub raw_diffs-parse_hunks :
    (patch : Bytes) {hs : List Hunk}
    → parse_hunks patch ≡ ok hs
    → raw_diffs hs ≡ unlines (from_header (split patch b'\n'))
unfolding parse_hunks
raw_diffs-parse_hunks patch e = parse_lines_closed (split patch b'\n') e

parse_lines-length :
    (lines : List Bytes) (hunks : List Hunk) (current : Option Hunk) {hs : List Hunk}
    → parse_lines lines hunks current ≡ ok hs
    → length hs ≡ length (flush hunks current) + count_headers lines
unfolding parse_lines count_headers flush
parse_lines-length [] hunks none {hs} e = let same : hunks ≡ hs = cc in rw (← same) (omega arith)
parse_lines-length [] hunks (some c) {hs} e =
    let same : hunks ++ c ∷ [] ≡ hs = cc in rw (← same) (omega arith)
parse_lines-length (l ∷ lines) hunks current {hs} e = elim (Bool-cases (is_header l)) [
  | inr p ↦ rw p (
      parse_lines-length lines hunks (Option.map (λ h. with_line h l) current) (rw p at e)
      ∙ ap (λ n. n + count_headers lines) (same_length hunks current l))
  | inl p ↦ rw p (elim (Result-cases (parse_hunk_header l)) [
    | inl (f, q) ↦ absurd (ground arith)
    | inr (h, q) ↦
        let c' : Hunk = record h { raw_diff = l ++ b'\n' ∷ [] } in
        let e' : parse_lines lines (flush hunks current) (some c') ≡ ok hs = ground arith in
        parse_lines-length lines (flush hunks current) (some c') e'
        ∙ omega (arith, length-append (flush hunks current) (c' ∷ []))
  ])
]

pub parse_hunks-empty : parse_hunks [] ≡ ok []
unfolding parse_hunks parse_lines split flush has_prefix
parse_hunks-empty = refl

-- A patch is parsed into as many hunks as it has lines that begin with "@@".
pub length-parse_hunks :
    (patch : Bytes) {hs : List Hunk}
    → parse_hunks patch ≡ ok hs
    → length hs ≡ count_headers (split patch b'\n')
unfolding parse_hunks
length-parse_hunks patch e =
    parse_lines-length (split patch b'\n') [] none e ∙ unfold flush in omega arith
