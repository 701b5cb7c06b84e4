-- ===== src/Forge/Orderers.antt =====
-- internal/forge/orderer.go and internal/forge/orderers: the orders in which a review presents files.
pub mod Roles
pub mod Stable
pub mod Sorted
use codewalker.Prelude.{
  ℕ, Bytes, bytes, Bool, true, false, ◌&&◌, ◌||◌, List, [], ◌∷◌, Option, none, some, ltb, eqb, ◌==◌,
  if◌then◌else◌, ◌++◌,
}
use codewalker.Prelude.Strings.{has_suffix, contains, to_lower}
use codewalker.Forge.{ReviewFile}

-- `<` on strings
unfoldable pub before : Bytes → Bytes → Bool
before s [] = false
before [] (d ∷ t) = true
before (c ∷ s) (d ∷ t) = ltb c d || (eqb c d && before s t)

-- `sort.SliceStable`: an element goes in front of those that stand behind it in the input, unless
-- they are less.
module _ {ℓ} {A : Type ℓ} (less : A → A → Bool) where
  unfoldable pub ordered_insert : A → List A → List A
  ordered_insert x [] = x ∷ []
  ordered_insert x (y ∷ l) =
      let rest = ordered_insert x l in if less y x then y ∷ rest else x ∷ y ∷ l

  unfoldable pub stable_sort : List A → List A
  unfolding ordered_insert
  stable_sort [] = []
  stable_sort (x ∷ l) = ordered_insert x (stable_sort l)

any_suffix : Bytes → List Bytes → Bool
unfolding has_suffix
any_suffix p [] = false
any_suffix p (s ∷ l) = has_suffix p s || any_suffix p l

any_part : Bytes → List Bytes → Bool
unfolding contains
any_part p [] = false
any_part p (s ∷ l) = contains p s || any_part p l

unfoldable pub is_test : Bytes → Bool
unfolding any_suffix any_part has_suffix contains
is_test p =
    any_suffix p (bytes "_test.go" ∷ [])
    || any_part p
        (bytes "/test/" ∷ bytes "/tests/" ∷ bytes ".test." ∷ bytes ".spec." ∷ bytes "_test.py" ∷ [])
    || (contains p (bytes "test_") && has_suffix p (bytes ".py"))

unfoldable pub is_documentation : Bytes → Bool
unfolding has_suffix contains
is_documentation p = has_suffix p (bytes ".md") || contains p (bytes "/docs/")

unfoldable pub is_configuration : Bytes → Bool
unfolding any_suffix any_part
is_configuration p =
    any_part p (bytes "/config/" ∷ bytes "/deploy/" ∷ [])
    || any_suffix p (bytes ".yaml" ∷ bytes ".yml" ∷ bytes "dockerfile" ∷ bytes "makefile" ∷ [])

unfoldable pub is_repository : Bytes → Bool
unfolding any_part
is_repository p = any_part p (
    bytes "/repository/"
    ∷ bytes "/repositories/"
    ∷ bytes "/adapter/"
    ∷ bytes "/adapters/"
    ∷ bytes "/dao/"
    ∷ [])

unfoldable pub is_domain : Bytes → Bool
unfolding any_part
is_domain p = any_part p (
    bytes "/service/"
    ∷ bytes "/services/"
    ∷ bytes "/domain/"
    ∷ bytes "/model/"
    ∷ bytes "/models/"
    ∷ [])

unfoldable pub is_entry_point : Bytes → Bool
unfolding any_suffix any_part
is_entry_point p =
    any_part p (
      bytes "/controller/"
      ∷ bytes "/controllers/"
      ∷ bytes "/handler/"
      ∷ bytes "/handlers/"
      ∷ bytes "/route/"
      ∷ bytes "/routes/"
      ∷ bytes "/api/"
      ∷ bytes "/cmd/"
      ∷ [])
    || any_suffix p (
        bytes "/main.go"
        ∷ bytes "main.kt"
        ∷ bytes "main.py"
        ∷ bytes "index.ts"
        ∷ bytes "index.js"
        ∷ [])

-- The key of a file: a lower tier comes first.
unfoldable pub tier : Bytes → ℕ
unfolding to_lower is_test is_documentation is_configuration is_repository is_domain is_entry_point
tier path =
    let p = to_lower path in
    if is_test p
    then 80
    else if is_documentation p
    then 70
    else if is_configuration p
    then 60
    else if is_repository p
    then 50
    else if is_domain p
    then 30
    else if is_entry_point p
    then 10
    else 40

unfoldable pub less_path : ReviewFile → ReviewFile → Bool
unfolding before
less_path f g = before f.path g.path

unfoldable pub less_tier : ReviewFile → ReviewFile → Bool
unfolding tier before
less_tier f g =
    if eqb (tier f.path) (tier g.path)
    then before f.path g.path
    else ltb (tier f.path) (tier g.path)

pub data Orderer : Type 0 where
  entry_points_first alphabetical as_fetched : Orderer

unfoldable pub name : Orderer → Bytes
name entry_points_first = bytes "entry-points-first"
name alphabetical = bytes "alphabetical"
name as_fetched = bytes "as-fetched"

unfoldable pub description : Orderer → Bytes
description entry_points_first =
    bytes "Entry points first, then domain logic, infrastructure, and tests last"
description alphabetical = bytes "Sorted by file path"
description as_fetched =
    bytes "Preserves the order returned by the forge "
    ++ ((226 ∷ 128 ∷ 148 ∷ []) ++ bytes " useful for debugging")

unfoldable pub order : Orderer → List ReviewFile → List ReviewFile
unfolding stable_sort less_path less_tier
order entry_points_first files = stable_sort less_tier files
order alphabetical files = stable_sort less_path files
order as_fetched files = files

find_orderer : Bytes → List Orderer → Option Orderer
unfolding name ◌==◌
find_orderer n [] = none
find_orderer n (o ∷ l) = let rest = find_orderer n l in if name o == n then some o else rest

-- The registry, filled as the package is loaded.
abbrev pub registered : List Orderer
registered = entry_points_first ∷ alphabetical ∷ as_fetched ∷ []

unfoldable pub resolve_orderer : Bytes → Option Orderer
unfolding find_orderer ◌==◌
resolve_orderer n = find_orderer (if n == [] then bytes "entry-points-first" else n) registered

-- `ListOrderers`, in an order that the program leaves open.
abbrev pub list_orderers : List Orderer
list_orderers = registered
