-- ===== src/Git/Manifest.antt =====
-- internal/git/manifest.go: `Manifest`, `DetectManifest`, `LookupVersion` and the parsers of the five
-- kinds of manifest. The files at the root of the repository are the parameter `Root`, by the name
-- that the program joins to the root; so is the decoding of JSON into the program's structs.
pub mod Scan
pub mod GoMod
pub mod Merge
use codewalker.Prelude.{
  or_empty, ℕ, suc, Bytes, bytes, Bool, true, false, List, [], ◌∷◌, Option, none, some, ◌==◌, ◌||◌,
  ◌&&◌, not, if◌then◌else◌, take, drop, ltb, ◌+◌, length,
}
use codewalker.Prelude.Assoc.{Assoc, lookup, put}
use codewalker.Prelude.Strings.{has_prefix, trim_prefix, trim_suffix, trim_space, fields, index}
use codewalker.Git.Manifest.Scan.{scan_lines}
use mathlib.Core.Option

pub record Manifest : Type 0 where
  pub kind : Bytes
  pub dependencies : Assoc Bytes

-- The structs of `parseNPM` and `parseComposer`; a map that the document lacks is empty.
pub record NpmPackage : Type 0 where
  pub dependencies : Assoc Bytes
  pub dev_dependencies : Assoc Bytes

-- `open` gives the bytes that a scanner reads from the file up to its end or a failed read,
-- `read_file` those of a file that is read whole; `none` is an error.
pub record Root : Type 0 where
  pub open_file : Bytes → Option Bytes
  pub read_file : Bytes → Option Bytes
  pub decode_npm : Bytes → Option NpmPackage
  pub decode_composer : Bytes → Option (Assoc Bytes)

-- The two words of a requirement; the words behind them are ignored.
unfoldable pub gomod_entry : List Bytes → Assoc Bytes → Assoc Bytes
unfolding put
gomod_entry (name ∷ version ∷ rest) deps = put name version deps
gomod_entry _ deps = deps

unfoldable pub gomod_lines : List Bytes → Bool → Assoc Bytes → Assoc Bytes
unfolding ◌==◌ has_prefix trim_prefix trim_space fields gomod_entry
gomod_lines [] in_require deps = deps
gomod_lines (text ∷ lines) in_require deps =
    let line = trim_space text in
    elim (line == bytes "require (") [
      | true ↦ gomod_lines lines true deps
      | false ↦ elim (in_require && (line == bytes ")")) [
        | true ↦ gomod_lines lines false deps
        | false ↦ elim (in_require || has_prefix line (bytes "require ")) [
          | true ↦
              gomod_lines lines in_require
                (gomod_entry (fields (trim_prefix line (bytes "require "))) deps)
          | false ↦ gomod_lines lines in_require deps
        ]
      ]
    ]

unfoldable pub parse_gomod : Root → Bytes → Option Manifest
unfolding gomod_lines scan_lines
parse_gomod root path = elim (root.open_file path) [
  | none ↦ none
  | some f ↦
      some (record { kind = bytes "gomod"; dependencies = gomod_lines (scan_lines f) false [] })
]

-- `for k, v := range src { deps[k] = v }`
unfoldable pub copy_all : Assoc Bytes → Assoc Bytes → Assoc Bytes
unfolding put
copy_all [] deps = deps
copy_all ((k, v) ∷ src) deps = copy_all src (put k v deps)

unfoldable pub parse_npm : Root → Bytes → Option Manifest
unfolding copy_all
parse_npm root path = elim (root.read_file path) [
  | none ↦ none
  | some data_bytes ↦ elim (root.decode_npm data_bytes) [
    | none ↦ none
    | some pkg ↦ some (record {
      kind = bytes "npm";
      dependencies = copy_all pkg.dev_dependencies (copy_all pkg.dependencies []);
    })
  ]
]

unfoldable pub parse_composer : Root → Bytes → Option Manifest
parse_composer root path = elim (root.read_file path) [
  | none ↦ none
  | some data_bytes ↦ elim (root.decode_composer data_bytes) [
    | none ↦ none
    | some require ↦ some (record { kind = bytes "composer"; dependencies = require })
  ]
]

abbrev pub separators : List Bytes
separators = bytes "==" ∷ bytes ">=" ∷ bytes "<=" ∷ bytes "~=" ∷ bytes "!=" ∷ []

-- The entry at the first separator, of those in order, that the line has.
unfoldable pub pip_split : List Bytes → Bytes → Assoc Bytes → Assoc Bytes
unfolding index put
pip_split [] line deps = deps
pip_split (sep ∷ seps) line deps = elim (index line sep) [
  | none ↦ pip_split seps line deps
  | some idx ↦ put (take idx line) (drop (idx + length sep) line) deps
]

unfoldable pub pip_line : Bytes → Assoc Bytes → Assoc Bytes
unfolding ◌==◌ has_prefix lookup put pip_split
pip_line line deps = elim ((line == []) || has_prefix line (bytes "#")) [
  | true ↦ deps
  | false ↦
      let with_entry = pip_split separators line deps in
      elim (lookup line with_entry) [ some _ ↦ with_entry | none ↦ put line [] with_entry ]
]

unfoldable pub pip_lines : List Bytes → Assoc Bytes → Assoc Bytes
unfolding trim_space pip_line
pip_lines [] deps = deps
pip_lines (text ∷ lines) deps = pip_lines lines (pip_line (trim_space text) deps)

unfoldable pub parse_pip : Root → Bytes → Option Manifest
unfolding pip_lines scan_lines
parse_pip root path = elim (root.open_file path) [
  | none ↦ none
  | some f ↦ some (record { kind = bytes "pip"; dependencies = pip_lines (scan_lines f) [] })
]

unfoldable pub gem_line : Bytes → Assoc Bytes → Assoc Bytes
unfolding index put trim_suffix
gem_line line deps = elim (index line (bytes " (")) [
  | some (suc i) ↦ put (take (suc i) line) (trim_suffix (drop (i + 3) line) (bytes ")")) deps
  | _ ↦ deps
]

unfoldable pub gem_lines : List Bytes → Assoc Bytes → Assoc Bytes
unfolding trim_space gem_line
gem_lines [] deps = deps
gem_lines (text ∷ lines) deps = gem_lines lines (gem_line (trim_space (trim_space text)) deps)

unfoldable pub parse_gem : Root → Bytes → Option Manifest
unfolding gem_lines scan_lines
parse_gem root path = elim (root.open_file path) [
  | none ↦ none
  | some f ↦ some (record { kind = bytes "gem"; dependencies = gem_lines (scan_lines f) [] })
]

abbrev pub Probe : Type 0
Probe = Bytes × (Root → Bytes → Option Manifest)

abbrev pub probes : List Probe
probes =
    (bytes "go.mod", parse_gomod)
    ∷ (bytes "package.json", parse_npm)
    ∷ (bytes "composer.json", parse_composer)
    ∷ (bytes "requirements.txt", parse_pip)
    ∷ (bytes "Gemfile.lock", parse_gem)
    ∷ []

unfoldable pub first_found : List Probe → Root → Option Manifest
first_found [] root = none
first_found ((file, parser) ∷ rest) root = elim (parser root file) [
  | some m ↦ some m
  | none ↦ first_found rest root
]

unfoldable pub detect_manifest : Root → Option Manifest
unfolding first_found
detect_manifest root = first_found probes root

-- `m.LookupVersion(packageName)`, also at nil
unfoldable pub lookup_version : Option Manifest → Bytes → Bytes
unfolding lookup
lookup_version none package_name = []
lookup_version (some m) package_name = or_empty (lookup package_name m.dependencies)
