-- ===== src/Resolver/Pinned.antt =====
-- From the go.mod file of a repository to the links that are shown for a call into a package.
use codewalker.Prelude.{
  or_empty, Bytes, bytes, false, [], ◌∷◌, ◌++◌, Option, some, Result, ◌≡◌, refl, sym, ap, ◌∙◌, ◌==◌,
}
use codewalker.Prelude.Assoc.{Assoc, lookup}
use codewalker.Git.Manifest.{Manifest, Root, detect_manifest, lookup_version}
use codewalker.Git.Manifest.GoMod.{IsWord, IsRequired, lookup_version-required}
use codewalker.Resolver.{new_resolver, resolve, links, select_backend, go_mod_links, Links}

-- The page of a symbol in a version of a package.
abbrev pub pinned_page : Bytes → Bytes → Bytes → Bytes
pinned_page pkg version symbol =
    bytes "https://pkg.go.dev/" ++ (pkg ++ (bytes "@" ++ (version ++ (bytes "#" ++ symbol))))

abbrev pinned_links : Bytes → Bytes → Bytes → Links
pinned_links pkg version symbol = record {
  docs_url = pinned_page pkg version symbol;
  source_url = bytes "https://cs.opensource.google/go/" ++ pkg;
  version = version;
}

go_mod_links-pinned :
    (pkg version symbol : Bytes)
    → (version == []) ≡ false
    → go_mod_links pkg symbol version ≡ pinned_links pkg version symbol
unfolding go_mod_links
go_mod_links-pinned pkg version symbol full = rw (full, go_mod_links) refl

word-eq : (w : Bytes) → IsWord w → (w == []) ≡ false
unfolding ◌==◌
word-eq [] h = absurd h
word-eq (c ∷ w) h = refl

-- A manifest of kind gomod that has a version.
resolve-go_mod :
    (m : Option Manifest) (dependencies : Assoc Bytes) (language pkg symbol version : Bytes)
    (summarize : Bytes → Bytes → Bytes → Result Bytes Bytes)
    → m ≡ some (record { kind = bytes "gomod"; dependencies = dependencies })
    → lookup_version m pkg ≡ version
    → (version == []) ≡ false
    → let info =
        resolve
          (record {
            summarize = summarize;
            backend = select_backend language m;
            language = language;
          })
          pkg
          symbol in
      (info.version ≡ version) × (info.docs_url ≡ pinned_page pkg version symbol)
unfolding resolve select_backend links ◌==◌
resolve-go_mod m dependencies language pkg symbol version summarize same known full =
    rw same (ap (λ (l : Links). l.version) linked, ap (λ (l : Links). l.docs_url) linked)
  where
    pinned_here :
        lookup_version (some (record { kind = bytes "gomod"; dependencies = dependencies })) pkg
        ≡ version
    pinned_here = ap (λ o. lookup_version o pkg) (sym same) ∙ known

    linked :
        go_mod_links pkg symbol
          (lookup_version (some (record { kind = bytes "gomod"; dependencies = dependencies })) pkg)
        ≡ pinned_links pkg version symbol
    linked = ap (go_mod_links pkg symbol) pinned_here ∙ go_mod_links-pinned pkg version symbol full

required_version :
    (root : Root) (name version : Bytes) (deps : Assoc Bytes)
    → detect_manifest root ≡ some (record { kind = bytes "gomod"; dependencies = deps })
    → lookup name deps ≡ some version
    → lookup_version (detect_manifest root) name ≡ version
unfolding lookup_version
required_version root name version deps detected found =
    ap (λ m. lookup_version m name) detected ∙ ap or_empty found

-- In a repository whose go.mod file requires a package in a block, by a line as the go command writes it,
-- behind which no line starts with that package, a call into it is shown with the version of that
-- line, and the page of that version and that symbol. The model may answer anything, and the other lines
-- of the file, none with a carriage return or longer than the scanner's buffer, may hold anything.
pub resolve-required :
    (root : Root) (language pkg symbol version : Bytes) {file : Bytes}
    (summarize : Bytes → Bytes → Bytes → Result Bytes Bytes)
    → root.open_file (bytes "go.mod") ≡ some file
    → IsRequired pkg version file
    → let info = resolve (new_resolver root language summarize) pkg symbol in
      (info.version ≡ version) × (info.docs_url ≡ pinned_page pkg version symbol)
unfolding resolve new_resolver
resolve-required root language pkg symbol version summarize opened required =
    let (deps, detected, found) = lookup_version-required root pkg version opened required in
    resolve-go_mod (detect_manifest root) deps language pkg symbol version summarize detected
      (required_version root pkg version deps detected found) (word-eq version required.is_version)
