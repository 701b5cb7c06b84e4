-- ===== src/Review/Ids.antt =====
-- The ID of a hunk's step tells the file and the line.
use mathlib.Core.List.{map-append}
use mathlib.Core.Path.{ap₂}
use codewalker.Prelude.{
  map, sym, ◌∙◌, ℕ, Bytes, Bool, List, [], ◌∷◌, ◌++◌, map, ◌≡◌, ◌≢◌, refl, sym, ap, ◌∙◌, All,
}
use codewalker.Prelude.Int.{ℤ}
use codewalker.Prelude.Assoc.{Assoc}
use codewalker.Prelude.Strings.{itoa}
use codewalker.Prelude.Strings.Decimal.RoundTrip.{itoa-injective, itoa_no_colon}
use codewalker.Forge.{Hunk, ReviewFile}
use codewalker.Graph.{Step}
use codewalker.Review.{hunk_id, hunk_step, lines_of}
use codewalker.Review.Chain.{Distinct}
use codewalker.Review.Traversal.{review_steps}

abbrev colon : ℕ
colon = b':'

has-separator : (s t : Bytes) → ¬ All (λ c. c ≢ colon) (s ++ colon ∷ t)
has-separator [] t h = h.0 refl
has-separator (c ∷ s) t h = has-separator s t h.1

-- A text is cut at its last colon in one way.
cut_at_last :
    (a b x y : Bytes)
    → All (λ c. c ≢ colon) x
    → All (λ c. c ≢ colon) y
    → a ++ colon ∷ x ≡ b ++ colon ∷ y
    → (a ≡ b) × (x ≡ y)
cut_at_last [] [] x y hx hy e = (refl, cc)
cut_at_last [] (c ∷ b) x y hx hy e =
    let t : x ≡ b ++ colon ∷ y = cc in absurd (has-separator b y (rw t at hx))
cut_at_last (c ∷ a) [] x y hx hy e =
    let t : y ≡ a ++ colon ∷ x = cc in absurd (has-separator a x (rw t at hy))
cut_at_last (c ∷ a) (d ∷ b) x y hx hy e = let (p, q) = cut_at_last a b x y hx hy (cc) in (cc, q)

-- Two hunks have one ID only if they have one path and one start.
pub hunk_id-injective : (p q : Bytes) (a b : ℤ) → hunk_id p a ≡ hunk_id q b → (p ≡ q) × (a ≡ b)
unfolding hunk_id
hunk_id-injective p q a b e =
    let (same_path, same_number) =
      cut_at_last p q (itoa a) (itoa b) (itoa_no_colon a) (itoa_no_colon b) (cc) in
    (same_path, itoa-injective a b same_number)

-- Where the hunks of a review stand: the path, and the first line in the new file.
unfoldable pub places_of : Bytes → List Hunk → List (Bytes × ℤ)
places_of path [] = []
places_of path (h ∷ hunks) = (path, h.new_start) ∷ places_of path hunks

unfoldable pub places : List ReviewFile → List (Bytes × ℤ)
places [] = []
places (f ∷ files) = places_of f.path f.hunks ++ places files

abbrev pub DistinctPlaces : List (Bytes × ℤ) → Type 0
DistinctPlaces [] = Unit
DistinctPlaces (p ∷ l) = All (λ (q : Bytes × ℤ). q ≢ p) l × DistinctPlaces l

abbrev ids_of : List (Bytes × ℤ) → List Bytes
ids_of = map (λ (p : Bytes × ℤ). hunk_id p.0 p.1)

one_file :
    (path : Bytes) (lines : List Bytes) (omit_raw : Bool) (hunks : List Hunk)
    → map (λ (s : Step). s.id) (map (hunk_step path lines omit_raw) hunks)
      ≡ ids_of (places_of path hunks)
unfolding places_of hunk_step
one_file path lines omit_raw [] = refl
one_file path lines omit_raw (h ∷ hunks) =
    ap (◌∷◌ (hunk_id path h.new_start)) (one_file path lines omit_raw hunks)

-- The IDs of the steps are those of the places.
review_steps-places :
    (files : List ReviewFile) (file_lines : Assoc (List Bytes)) (omit_raw : Bool)
    → map (λ (s : Step). s.id) (review_steps files file_lines omit_raw) ≡ ids_of (places files)
unfolding review_steps places
review_steps-places [] file_lines omit_raw = refl
review_steps-places (f ∷ files) file_lines omit_raw =
    map-append (λ (s : Step). s.id)
      (map (hunk_step f.path (lines_of file_lines f.path) omit_raw) f.hunks)
      (review_steps files file_lines omit_raw)
    ∙ ap₂ ◌++◌ (one_file f.path (lines_of file_lines f.path) omit_raw f.hunks)
        (review_steps-places files file_lines omit_raw)
    ∙ sym
        (map-append (λ (p : Bytes × ℤ). hunk_id p.0 p.1) (places_of f.path f.hunks) (places files))

ids_differ :
    (l : List Step) (ps : List (Bytes × ℤ)) (p : Bytes × ℤ)
    → map (λ (s : Step). s.id) l ≡ ids_of ps
    → All (λ (q : Bytes × ℤ). q ≢ p) ps
    → All (λ (t : Step). t.id ≢ hunk_id p.0 p.1) l
ids_differ [] ps p e h = tt
ids_differ (s ∷ l) [] p e h = cc
ids_differ (s ∷ l) (q ∷ ps) p e (hq, h) = (
  λ same.
      let id : s.id ≡ hunk_id q.0 q.1 = cc in
      let (a, b) = hunk_id-injective q.0 p.0 q.1 p.1 (sym id ∙ same) in hq (λ i. (a i, b i)),
  ids_differ l ps p (cc) h,
)

Distinct-by_place :
    (l : List Step) (ps : List (Bytes × ℤ))
    → map (λ (s : Step). s.id) l ≡ ids_of ps
    → DistinctPlaces ps
    → Distinct l
Distinct-by_place [] ps e d = tt
Distinct-by_place (s ∷ l) [] e d = cc
Distinct-by_place (s ∷ l) (p ∷ ps) e (dp, d) =
    let id : s.id ≡ hunk_id p.0 p.1 = cc in
    (rw id (ids_differ l ps p (cc) dp), Distinct-by_place l ps (cc) d)

-- If no two hunks start at one line of one file, no two steps of the review have one ID.
pub DistinctPlaces-Distinct :
    (files : List ReviewFile) (file_lines : Assoc (List Bytes)) (omit_raw : Bool)
    → DistinctPlaces (places files)
    → Distinct (review_steps files file_lines omit_raw)
DistinctPlaces-Distinct files file_lines omit_raw d =
    Distinct-by_place (review_steps files file_lines omit_raw) (places files)
      (review_steps-places files file_lines omit_raw) d
