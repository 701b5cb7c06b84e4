-- ===== src/Forge/Orderers/Stable.antt =====
-- `sort.SliceStable`: all elements come out, in the order of the comparison.
use mathlib.Core.List.{Perm}
use mathlib.Core.List.Perm
use codewalker.Prelude.{Bool, true, false, List, [], ◌∷◌, All, ◌≡◌, Bool-cases, inl, inr}
use codewalker.Forge.Orderers.{ordered_insert, stable_sort}

module _ {ℓ} {A : Type ℓ} (less : A → A → Bool) where
  -- No element is less than one that stands in front of it.
  abbrev pub IsOrdered : List A → Type ℓ
  IsOrdered [] = Unit
  IsOrdered (x ∷ l) = All (λ y. less y x ≡ false) l × IsOrdered l

  ordered_insert-Perm : (x : A) (l : List A) → Perm (ordered_insert less x l) (x ∷ l)
  unfolding ordered_insert
  ordered_insert-Perm x [] = Perm.rfl
  ordered_insert-Perm x (y ∷ l) = elim (Bool-cases (less y x)) [
    | inl e ↦ rw e (Perm.trans (Perm.cons y (ordered_insert-Perm x l)) (Perm.swap x y l))
    | inr e ↦ rw e Perm.rfl
  ]

  pub stable_sort-Perm : (l : List A) → Perm (stable_sort less l) l
  unfolding stable_sort
  stable_sort-Perm [] = Perm.rfl
  stable_sort-Perm (x ∷ l) =
      Perm.trans (ordered_insert-Perm x (stable_sort less l)) (Perm.cons x (stable_sort-Perm l))

  All-ordered_insert {κ} :
      (P : A → Type κ) (x : A) (l : List A) → P x → All P l → All P (ordered_insert less x l)
  unfolding ordered_insert
  All-ordered_insert P x [] p h = (p, h)
  All-ordered_insert P x (y ∷ l) p (q, h) = elim (Bool-cases (less y x)) [
    | inl e ↦ rw e (q, All-ordered_insert P x l p h)
    | inr e ↦ rw e (p, (q, h))
  ]

  module _ (asym : (a b : A) → less a b ≡ true → less b a ≡ false)
      (trans : (a b c : A) → less b a ≡ false → less c b ≡ false → less c a ≡ false) where
    All-trans :
        (x y : A) (l : List A)
        → less y x ≡ false
        → All (λ z. less z y ≡ false) l
        → All (λ z. less z x ≡ false) l
    All-trans x y [] e h = tt
    All-trans x y (z ∷ l) e (q, h) = (trans x y z e q, All-trans x y l e h)

    ordered_insert-IsOrdered :
        (x : A) (l : List A) → IsOrdered l → IsOrdered (ordered_insert less x l)
    unfolding ordered_insert
    ordered_insert-IsOrdered x [] h = (tt, tt)
    ordered_insert-IsOrdered x (y ∷ l) (hy, h) = elim (Bool-cases (less y x)) [
      | inl e ↦ rw e (
        All-ordered_insert (λ z. less z y ≡ false) x l (asym y x e) hy,
        ordered_insert-IsOrdered x l h,
      )
      | inr e ↦ rw e ((e, All-trans x y l e hy), (hy, h))
    ]

    pub stable_sort-IsOrdered : (l : List A) → IsOrdered (stable_sort less l)
    unfolding stable_sort
    stable_sort-IsOrdered [] = tt
    stable_sort-IsOrdered (x ∷ l) =
        ordered_insert-IsOrdered x (stable_sort less l) (stable_sort-IsOrdered l)
