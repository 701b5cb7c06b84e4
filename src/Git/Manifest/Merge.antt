-- ===== src/Git/Manifest/Merge.antt =====
-- Maps that are copied into others, as `parseNPM` does with the dependencies and those of
-- development.
use codewalker.Prelude.{
  or_empty, Bytes, false, [], ◌∷◌, Option, none, some, ◌≡◌, refl, arith, if◌then◌else◌, ◌==◌,
  eq_iff, Bool-cases, inl, inr, sym, ap, ◌∙◌, ◌⊎◌,
}
use codewalker.Prelude.Assoc.{Assoc, lookup, put, lookup-put}
use codewalker.Git.Manifest.{NpmPackage, Root, copy_all, parse_npm, lookup_version, Bool}

-- No key stands twice, as in any map of Go.
abbrev pub IsMap : Assoc Bytes → Type 0
IsMap [] = Unit
IsMap ((k, v) ∷ m) = (lookup k m ≡ none) × IsMap m

-- The first value that there is.
abbrev pub or_else : Option Bytes → Option Bytes → Option Bytes
or_else none o = o
or_else (some v) o = some v

pub or_else-none : (o : Option Bytes) → or_else o none ≡ o
or_else-none none = refl
or_else-none (some v) = refl

pub lookup-copy_all :
    (src m : Assoc Bytes) (k : Bytes)
    → IsMap src
    → lookup k (copy_all src m) ≡ or_else (lookup k src) (lookup k m)
unfolding copy_all lookup
lookup-copy_all [] m k h = refl
lookup-copy_all ((j, v) ∷ src) m k (fresh, h) =
    lookup-copy_all src (put j v m) k h
    ∙ ap (or_else (lookup k src)) (lookup-put j k v m)
    ∙ first_of (j == k) (elim (Bool-cases (j == k)) [
      | inl same ↦ inr (ap (λ i. lookup i src) (sym ((eq_iff j k).0 same)) ∙ fresh)
      | inr other ↦ inl other
    ])
  where
    first_of :
        (same : Bool)
        → (same ≡ false) ⊎ (lookup k src ≡ none)
        → or_else (lookup k src) (if same then some v else lookup k m)
          ≡ or_else (if same then some v else lookup k src) (lookup k m)
    first_of same h = ground arith

-- A package of package.json has the version of the development dependencies, if they name it, else
-- the version of the dependencies.
pub lookup_version-parse_npm :
    (root : Root) (path package_name data_bytes : Bytes) {pkg : NpmPackage}
    → IsMap pkg.dependencies
    → IsMap pkg.dev_dependencies
    → root.read_file path ≡ some data_bytes
    → root.decode_npm data_bytes ≡ some pkg
    → lookup_version (parse_npm root path) package_name
      ≡ or_empty (
          or_else (lookup package_name pkg.dev_dependencies) (lookup package_name pkg.dependencies))
unfolding parse_npm lookup_version
lookup_version-parse_npm root path package_name data_bytes {pkg} deps dev read decoded =
    rw (read, decoded, parse_npm, lookup_version)
      (ap or_empty (
        lookup-copy_all pkg.dev_dependencies (copy_all pkg.dependencies []) package_name dev
        ∙ ap (or_else (lookup package_name pkg.dev_dependencies)) (
            lookup-copy_all pkg.dependencies [] package_name deps
            ∙ or_else-none (lookup package_name pkg.dependencies))))
