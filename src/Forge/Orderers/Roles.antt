-- ===== src/Forge/Orderers/Roles.antt =====
-- internal/forge/orderers/entry_points_first.go: what the tier of a path means.
use codewalker.Prelude.{
  ℕ, zero, suc, Bytes, Bool, true, false, ◌≡◌, refl, sym, ap, ◌∙◌, arith, ◌<◌, ◌+◌, ◌*◌, ◌⊎◌, inl,
  inr, if◌then◌else◌,
}
use codewalker.Prelude.Strings.{to_lower}
use codewalker.Forge.Orderers.{
  tier, is_test, is_documentation, is_configuration, is_repository, is_domain, is_entry_point,
}

-- What a file is, by the first of the questions on its path that is answered with yes.
pub data Role : Type 0 where
  test documentation configuration repository domain entry_point other : Role

abbrev pub role : Bytes → Role
role path =
    let p = to_lower path in
    if is_test p
    then test
    else if is_documentation p
    then documentation
    else if is_configuration p
    then configuration
    else if is_repository p
    then repository
    else if is_domain p
    then domain
    else if is_entry_point p
    then entry_point
    else other

-- The place of a role in a review: entry points first and tests last.
abbrev pub place : Role → ℕ
place entry_point = 0
place domain = 1
place other = 2
place repository = 3
place configuration = 4
place documentation = 5
place test = 6

abbrev pub tier_of : Role → ℕ
tier_of entry_point = 10
tier_of domain = 30
tier_of other = 40
tier_of repository = 50
tier_of configuration = 60
tier_of documentation = 70
tier_of test = 80

-- The tier and the role take the same way through the questions.
answered :
    (a b c d e f : Bool)
    → (if a
        then 80
        else if b
        then 70
        else if c
        then 60
        else if d
        then 50
        else if e
        then 30
        else if f
        then 10
        else 40)
      ≡ tier_of (
          if a
          then test
          else if b
          then documentation
          else if c
          then configuration
          else if d
          then repository
          else if e
          then domain
          else if f
          then entry_point
          else other)
answered true b c d e f = refl
answered false true c d e f = refl
answered false false true d e f = refl
answered false false false true e f = refl
answered false false false false true f = refl
answered false false false false false true = refl
answered false false false false false false = refl

pub tier-role : (path : Bytes) → tier path ≡ tier_of (role path)
unfolding tier
tier-role path =
    let p = to_lower path in
    answered (is_test p) (is_documentation p) (is_configuration p) (is_repository p) (is_domain p)
      (is_entry_point p)

role_at : ℕ → Role
role_at zero = entry_point
role_at (suc zero) = domain
role_at (suc (suc zero)) = other
role_at (suc (suc (suc zero))) = repository
role_at (suc (suc (suc (suc zero)))) = configuration
role_at (suc (suc (suc (suc (suc zero))))) = documentation
role_at _ = test

role_at-place : (r : Role) → role_at (place r) ≡ r
unfolding role_at
role_at-place entry_point = refl
role_at-place domain = refl
role_at-place other = refl
role_at-place repository = refl
role_at-place configuration = refl
role_at-place documentation = refl
role_at-place test = refl

abbrev IsPlaced : ℕ → ℕ → Type 0
IsPlaced a m = ((a ≡ 0) × (m ≡ 10)) ⊎ ((0 < a) × (m ≡ 20 + 10 * a))

tier_place : (r : Role) → IsPlaced (place r) (tier_of r)
tier_place entry_point = inl (refl, refl)
tier_place domain = inr (omega arith, refl)
tier_place other = inr (omega arith, refl)
tier_place repository = inr (omega arith, refl)
tier_place configuration = inr (omega arith, refl)
tier_place documentation = inr (omega arith, refl)
tier_place test = inr (omega arith, refl)

placed : (a b m n : ℕ) → IsPlaced a m → IsPlaced b n → (m < n → a < b) × (m ≡ n → a ≡ b)
placed a b m n (inl p) (inl q) = (λ h. omega arith, λ h. omega arith)
placed a b m n (inl p) (inr q) = (λ h. omega arith, λ h. omega arith)
placed a b m n (inr p) (inl q) = (λ h. omega arith, λ h. omega arith)
placed a b m n (inr p) (inr q) = (λ h. omega arith, λ h. omega arith)

pub place_tier :
    (q r : Role)
    → (tier_of q < tier_of r → place q < place r) × (tier_of q ≡ tier_of r → place q ≡ place r)
place_tier q r = placed (place q) (place r) (tier_of q) (tier_of r) (tier_place q) (tier_place r)

pub role_eq : (q r : Role) → tier_of q ≡ tier_of r → q ≡ r
role_eq q r h = sym (role_at-place q) ∙ ap role_at ((place_tier q r).1 h) ∙ role_at-place r
