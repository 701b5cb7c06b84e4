-- ===== src/Tests/Packages.antt =====
-- Manifests of a small repository, and the theorems on manifests and resolution applied to it.
use codewalker.Prelude.{
  Bytes, bytes, Bool, true, false, not, ◌&&◌, eqb, leb, length, List, [], ◌∷◌, none, some, or_empty,
  Result, err, ◌≡◌, refl, All, arith, ◌==◌, if◌then◌else◌,
}
use codewalker.Prelude.Assoc.{Assoc, lookup}
use codewalker.Git.Manifest.{Root, NpmPackage, parse_npm, parse_pip, lookup_version}
use codewalker.Git.Manifest.Merge.{IsMap, or_else, lookup_version-parse_npm}
use codewalker.Git.Manifest.GoMod.{IsRequired, indirect}
use codewalker.Git.Manifest.Scan.{IsPlain, IsLine, unlines, max_line}
use codewalker.Resolver.{new_resolver, resolve}
use codewalker.Resolver.Pinned.{pinned_page, resolve-required}

abbrev deps : Assoc Bytes
deps = (bytes "a/b", bytes "v1") ∷ (bytes "c", bytes "v2") ∷ []

abbrev a_package : NpmPackage
a_package = record { dependencies = deps; dev_dependencies = (bytes "c", bytes "v3") ∷ [] }

abbrev pip_text : Bytes
pip_text = bytes "requests==2.28"

-- A file as the go command writes it.
abbrev go_mod : List Bytes
go_mod =
    bytes "module m"
    ∷ []
    ∷ bytes "go 1.22"
    ∷ bytes "require ("
    ∷ bytes "\ta/b v1"
    ∷ bytes "\tc v2 // indirect"
    ∷ bytes ")"
    ∷ bytes "replace d => ../d // local"
    ∷ []

abbrev a_root : Root
a_root = record {
  open_file = λ name. if name == bytes "go.mod" then some (unlines go_mod) else some pip_text;
  read_file = λ name. some name;
  decode_npm = λ text. some a_package;
  decode_composer = λ text. none;
}

deps-IsMap : IsMap deps
unfolding lookup ◌==◌
deps-IsMap = (refl, (refl, tt))

dev-IsMap : IsMap ((bytes "c", bytes "v3") ∷ [])
unfolding lookup ◌==◌
dev-IsMap = (refl, tt)

go_mod-opens : a_root.open_file (bytes "go.mod") ≡ some (unlines go_mod)
unfolding ◌==◌
go_mod-opens = refl

plain_line : (b : Bytes) → Bool
plain_line [] = true
plain_line (c ∷ b) = not (eqb c 10) && not (eqb c 13) && plain_line b

plain_line-IsPlain : (b : Bytes) → plain_line b ≡ true → All IsPlain b
unfolding plain_line
plain_line-IsPlain [] h = tt
plain_line-IsPlain (c ∷ b) h =
    ((λ e. ground arith, λ e. ground arith), plain_line-IsPlain b (ground arith))

plain_lines : List Bytes → Bool
plain_lines [] = true
plain_lines (l ∷ ls) = plain_line l && leb (length l) max_line && plain_lines ls

plain_lines-IsLine : (ls : List Bytes) → plain_lines ls ≡ true → All IsLine ls
unfolding plain_lines
plain_lines-IsLine [] h = tt
plain_lines-IsLine (l ∷ ls) h =
    ((plain_line-IsPlain l (ground arith), ground arith), plain_lines-IsLine ls (ground arith))

c-IsRequired : IsRequired (bytes "c") (bytes "v2") (unlines go_mod)
unfolding plain_lines plain_line codewalker.Prelude.Strings.trim_space
    codewalker.Prelude.Strings.trim_prefix codewalker.Prelude.Strings.fields ◌==◌
c-IsRequired = record {
  before = bytes "module m" ∷ [] ∷ bytes "go 1.22" ∷ [];
  inside = bytes "\ta/b v1" ∷ [];
  after = bytes ")" ∷ bytes "replace d => ../d // local" ∷ [];
  remark = indirect;
  is_name = (omega arith, tt);
  is_version = (omega arith, (omega arith, tt));
  no_directive = λ e. cc;
  open_block = (refl, tt);
  last_one = (refl, (refl, tt));
  lines = plain_lines-IsLine go_mod refl;
  spelled = refl;
}

-- The line of a pinned requirement is also a name, without a version.
pip-whole_line :
    parse_pip a_root (bytes "requirements.txt")
    ≡ some (record {
      kind = bytes "pip";
      dependencies = (pip_text, []) ∷ (bytes "requests", bytes "2.28") ∷ [];
    })
unfolding parse_pip
pip-whole_line = refl

abbrev summarize : Bytes → Bytes → Bytes → Result Bytes Bytes
summarize pkg symbol language = err (bytes "no key")

resolve-required_example :
    ((resolve (new_resolver a_root (bytes "Go") summarize) (bytes "c") (bytes "F")).version
      ≡ bytes "v2")
    × ((resolve (new_resolver a_root (bytes "Go") summarize) (bytes "c") (bytes "F")).docs_url
        ≡ pinned_page (bytes "c") (bytes "v2") (bytes "F"))
resolve-required_example =
    resolve-required a_root (bytes "Go") (bytes "c") (bytes "F") (bytes "v2") summarize go_mod-opens
      c-IsRequired

lookup_version-parse_npm_example :
    lookup_version (parse_npm a_root (bytes "package.json")) (bytes "c")
    ≡ or_empty (
        or_else
          (lookup (bytes "c") a_package.dev_dependencies)
          (lookup (bytes "c") a_package.dependencies))
lookup_version-parse_npm_example =
    lookup_version-parse_npm a_root (bytes "package.json") (bytes "c") (bytes "package.json")
      {pkg = a_package} deps-IsMap dev-IsMap refl refl
