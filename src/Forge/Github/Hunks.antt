-- ===== src/Forge/Github/Hunks.antt =====
-- internal/forge/forges/github.go: `parseHunks`, `parseHunkHeader` and `parseHunkRange`.
pub mod Lossless
pub mod Header
use codewalker.Prelude.{
  ℕ, Bytes, bytes, Bool, true, false, List, [], ◌∷◌, ◌++◌, Option, none, some, Result, ok, err,
  ◌>>=◌, take, drop, eqb, if◌then◌else◌,
}
use codewalker.Prelude.Int.{ℤ, pos}
use codewalker.Prelude.Strings.{has_prefix, index, split, fields, atoi}
use codewalker.Forge.{Hunk}
use mathlib.Core.Option

pub data HunkError : Type 0 where
  malformed_header no_closing malformed_ranges bad_old_range bad_new_range : HunkError

-- `strings.IndexByte`: what stands before the byte, and behind it.
unfoldable pub cut_byte : Bytes → ℕ → Option (Bytes × Bytes)
cut_byte [] b = none
cut_byte (c ∷ s) b =
    if eqb c b then some ([], s) else Option.map (λ p. (c ∷ p.0, p.1)) (cut_byte s b)

with_count : ℤ → Option ℤ → Option (ℤ × ℤ)
with_count start none = none
with_count start (some count) = some (start, count)

range_parts : Bytes → Option (Bytes × Bytes) → Option (ℤ × ℤ)
unfolding atoi with_count
range_parts s none = elim (atoi s) [ none ↦ none | some start ↦ some (start, pos 1) ]
range_parts s (some (a, b)) = elim (atoi a) [ none ↦ none | some start ↦ with_count start (atoi b) ]

-- "-3,5" or "+3": the sign is stripped, and a count that is left out is 1. The empty text, on which
-- `s[1:]` panics, is no field of a header.
unfoldable pub parse_hunk_range : Bytes → Option (ℤ × ℤ)
unfolding range_parts cut_byte
parse_hunk_range [] = none
parse_hunk_range (c ∷ s) = range_parts s (cut_byte s b',')

abbrev or_error {ℓ κ} : {E : Type ℓ} {A : Type κ} → E → Option A → Result E A
or_error e none = err e
or_error e (some a) = ok a

header_ranges : List Bytes → Result HunkError Hunk
unfolding parse_hunk_range
header_ranges (old ∷ new ∷ rest) = do
  o ← or_error bad_old_range (parse_hunk_range old)
  n ← or_error bad_new_range (parse_hunk_range new)
  ok (record { old_start = o.0; old_lines = o.1; new_start = n.0; new_lines = n.1; raw_diff = [] })
header_ranges _ = err malformed_ranges

unfoldable pub parse_hunk_header : Bytes → Result HunkError Hunk
unfolding has_prefix index fields header_ranges
parse_hunk_header line =
    if has_prefix line (bytes "@@ ")
    then (do
      end ← or_error no_closing (index (drop 3 line) (bytes " @@"))
      header_ranges (fields (take end (drop 3 line))))
    else err malformed_header

abbrev with_line : Hunk → Bytes → Hunk
with_line h line = record h { raw_diff = h.raw_diff ++ (line ++ b'\n' ∷ []) }

flush : List Hunk → Option Hunk → List Hunk
flush hunks none = hunks
flush hunks (some h) = hunks ++ h ∷ []

-- The loop over the lines: the hunks that are done, and the one that is open.
parse_lines : List Bytes → List Hunk → Option Hunk → Result HunkError (List Hunk)
unfolding has_prefix flush
parse_lines [] hunks current = ok (flush hunks current)
parse_lines (line ∷ lines) hunks current = elim (has_prefix line (bytes "@@")) [
  | true ↦ elim (parse_hunk_header line) [
    | err e ↦ err e
    | ok h ↦
        parse_lines lines (flush hunks current) (some (record h { raw_diff = line ++ b'\n' ∷ [] }))
  ]
  | false ↦ parse_lines lines hunks (Option.map (λ h. with_line h line) current)
]

unfoldable pub parse_hunks : Bytes → Result HunkError (List Hunk)
unfolding parse_lines split
parse_hunks patch = parse_lines (split patch b'\n') [] none
