-- ===== src/Forge/Orderers/Sorted.antt =====
-- internal/forge/orderers: the files come out complete and in order.
use mathlib.Core.List.{Perm}
use codewalker.Prelude.{
  ℕ, Bytes, Bool, true, false, List, [], ◌∷◌, All, ◌≡◌, refl, arith, ltb, eqb, if◌then◌else◌,
  Bool-cases, inl, inr, sym, ◌∙◌, ◌<◌, ◌⊎◌,
}
use codewalker.Forge.{ReviewFile}
use codewalker.Forge.Orderers.Roles.{role, place, tier_of, tier-role, place_tier, role_eq}
use codewalker.Forge.Orderers.Stable.{IsOrdered, stable_sort-Perm, stable_sort-IsOrdered}
use codewalker.Forge.Orderers.{
  before, stable_sort, less_path, less_tier, tier, Orderer, order, entry_points_first, alphabetical,
  as_fetched,
}

pub before-asym : (s t : Bytes) → before s t ≡ true → before t s ≡ false
unfolding before
before-asym s [] h = ground arith
before-asym [] (d ∷ t) h = refl
before-asym (c ∷ s) (d ∷ t) h = ground (arith, before-asym s t)

pub before_trans : (r s t : Bytes) → before s r ≡ false → before t s ≡ false → before t r ≡ false
unfolding before
before_trans [] s t h k = refl
before_trans (c ∷ r) [] t h k = ground arith
before_trans (c ∷ r) (d ∷ s) [] h k = ground arith
before_trans (c ∷ r) (d ∷ s) (e ∷ t) h k = ground (arith, before_trans r s t)

abbrev keyed : ℕ → ℕ → Bool → Bool
keyed m n b = if eqb m n then b else ltb m n

keyed-asym :
    (m n : ℕ) (b c : Bool) → (b ≡ true → c ≡ false) → keyed m n b ≡ true → keyed n m c ≡ false
keyed-asym m n b c f h = ground arith

keyed_trans :
    (l m n : ℕ) (a b c : Bool)
    → (a ≡ false → b ≡ false → c ≡ false)
    → keyed m l a ≡ false
    → keyed n m b ≡ false
    → keyed n l c ≡ false
keyed_trans l m n a b c f h k = ground arith

less_tier-asym : (f g : ReviewFile) → less_tier f g ≡ true → less_tier g f ≡ false
unfolding less_tier
less_tier-asym f g =
    keyed-asym (tier f.path) (tier g.path) (before f.path g.path) (before g.path f.path)
      (before-asym f.path g.path)

less_tier_trans :
    (f g h : ReviewFile) → less_tier g f ≡ false → less_tier h g ≡ false → less_tier h f ≡ false
unfolding less_tier
less_tier_trans f g h =
    keyed_trans (tier f.path) (tier g.path) (tier h.path) (before g.path f.path)
      (before h.path g.path) (before h.path f.path) (before_trans f.path g.path h.path)

-- The order of paths: at the first difference the smaller byte, or the end, comes first.
pub data PathLe : Bytes → Bytes → Type 0 where
  ends : {t : Bytes} → PathLe [] t
  smaller : {c d : ℕ} {s t : Bytes} → c < d → PathLe (c ∷ s) (d ∷ t)
  same : {c : ℕ} {s t : Bytes} → PathLe s t → PathLe (c ∷ s) (c ∷ t)

PathLe-before : (s t : Bytes) → before t s ≡ false → PathLe s t
unfolding before
PathLe-before [] t h = ends
PathLe-before (c ∷ s) [] h = absurd (ground arith)
PathLe-before (c ∷ s) (d ∷ t) h = elim (Bool-cases (ltb c d)) [
  | inl less ↦ smaller (ground arith)
  | inr more ↦
      let e : c ≡ d = ground arith in
      let rest : before t s ≡ false = ground arith in rw (← e) (same (PathLe-before s t rest))
]

-- The second file may stand behind the first one.
abbrev pub Precedes : ReviewFile → ReviewFile → Type 0
Precedes f g =
    (place (role f.path) < place (role g.path))
    ⊎ ((role f.path ≡ role g.path) × PathLe f.path g.path)

keyed_cases : (m n : ℕ) (b : Bool) → keyed m n b ≡ false → (n < m) ⊎ ((n ≡ m) × (b ≡ false))
keyed_cases m n b h = elim (Bool-cases (eqb m n)) [
  | inl e ↦ inr (ground arith, ground arith)
  | inr e ↦ inl (ground arith)
]

Precedes-less_tier : (f g : ReviewFile) → less_tier g f ≡ false → Precedes f g
unfolding less_tier
Precedes-less_tier f g h = elim (keyed_cases (tier g.path) (tier f.path) (before g.path f.path) h) [
  | inl less ↦
      let tiers : tier_of (role f.path) < tier_of (role g.path) =
        rw (← tier-role f.path, ← tier-role g.path) less in
      inl ((place_tier (role f.path) (role g.path)).0 tiers)
  | inr (tiers, paths) ↦ inr (
    role_eq (role f.path) (role g.path) (sym (tier-role f.path) ∙ tiers ∙ tier-role g.path),
    PathLe-before f.path g.path paths,
  )
]

All-map {ℓ κ} :
    {A : Type 0} {P : A → Type ℓ} {Q : A → Type κ}
    → ((a : A) → P a → Q a)
    → (l : List A) → All P l
    → All Q l
All-map of [] h = tt
All-map of (a ∷ l) (ha, h) = (of a ha, All-map of l h)

-- Each file, and any file that stands behind it.
abbrev pub Pairwise {ℓ} : (ReviewFile → ReviewFile → Type ℓ) → List ReviewFile → Type ℓ
Pairwise R [] = Unit
Pairwise R (f ∷ files) = All (R f) files × Pairwise R files

Pairwise-IsOrdered {ℓ} :
    (R : ReviewFile → ReviewFile → Type ℓ) (less : ReviewFile → ReviewFile → Bool)
    → ((f g : ReviewFile) → less g f ≡ false → R f g)
    → (files : List ReviewFile) → IsOrdered less files
    → Pairwise R files
Pairwise-IsOrdered R less of [] h = tt
Pairwise-IsOrdered R less of (f ∷ files) (hf, h) =
    (All-map (of f) files hf, Pairwise-IsOrdered R less of files h)

-- What an orderer makes of files.
abbrev pub IsPresented : Orderer → List ReviewFile → List ReviewFile → Type 0
IsPresented entry_points_first files out = Perm out files × Pairwise Precedes out
IsPresented alphabetical files out = Perm out files × Pairwise (λ f g. PathLe f.path g.path) out
IsPresented as_fetched files out = out ≡ files

-- With "entry-points-first" all files come out, entry points before domain logic, that before files
-- of no other kind, then repositories, configuration, documentation and tests, and those of one kind
-- by path; with "alphabetical" all files by path; with "as-fetched" the files as they are.
pub order-IsPresented :
    (o : Orderer) (files : List ReviewFile) → IsPresented o files (order o files)
unfolding order
order-IsPresented entry_points_first files = (
  stable_sort-Perm less_tier files,
  Pairwise-IsOrdered Precedes less_tier Precedes-less_tier (stable_sort less_tier files)
      (stable_sort-IsOrdered less_tier less_tier-asym less_tier_trans files),
)
order-IsPresented alphabetical files =
    unfold less_path in
    (
      stable_sort-Perm less_path files,
      Pairwise-IsOrdered (λ f g. PathLe f.path g.path) less_path
          (λ f g. PathLe-before f.path g.path) (stable_sort less_path files)
          (stable_sort-IsOrdered less_path (λ f g. before-asym f.path g.path)
            (λ f g h. before_trans f.path g.path h.path) files),
    )
order-IsPresented as_fetched files = refl
