-- ===== src/Parser/Labels.antt =====
-- internal/parser/languages/golang.go: `trimText`, the one-line labels of the steps.
use codewalker.Prelude.{
  ℕ, zero, suc, Bytes, bytes, [], ◌∷◌, ◌++◌, map, length, ltb, take, ◌-◌, ◌+◌, ◌≤◌, if◌then◌else◌,
  eqb, arith, length-append,
}
use codewalker.Prelude.Strings.{fields, join}

-- "…", which is three bytes.
abbrev pub ellipsis : Bytes
ellipsis = 226 ∷ 128 ∷ 166 ∷ []

-- `strings.ReplaceAll(s, "\n", " ")`
unfoldable pub spaced : Bytes → Bytes
spaced s = map (λ c. if eqb c 10 then 32 else c) s

unfoldable pub one_line : Bytes → Bytes
unfolding spaced fields join
one_line s = join (fields (spaced s)) (bytes " ")

unfoldable pub trim_text : Bytes → ℕ → Bytes
unfolding one_line
trim_text s max =
    let t = one_line s in if ltb max (length t) then take (max - 1) t ++ ellipsis else t

length-take_le : (n : ℕ) (s : Bytes) → length (take n s) ≤ n
length-take_le zero s = omega arith
length-take_le (suc n) [] = omega arith
length-take_le (suc n) (c ∷ s) = omega (arith, length-take_le n s)

-- A label may be two bytes longer than the limit that is given, since the ellipsis is three bytes
-- and replaces one; it is never longer.
pub length-trim_text : (s : Bytes) (max : ℕ) → 1 ≤ max → length (trim_text s max) ≤ max + 2
unfolding trim_text
length-trim_text s max positive = ground (
  arith,
  length-take_le (max - 1) (one_line s),
  length-append (take (max - 1) (one_line s)) ellipsis,
)
