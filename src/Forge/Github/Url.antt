-- ===== src/Forge/Github/Url.antt =====
-- internal/forge/forges/github.go: `ParseURL`.
pub mod RoundTrip
use codewalker.Prelude.{
  ℕ, Bytes, bytes, Bool, List, [], ◌∷◌, Option, none, some, ◌+◌, ◌==◌, take, drop, if◌then◌else◌,
}
use codewalker.Prelude.Int.{ℤ, pos}
use codewalker.Prelude.Strings.{trim_prefix, trim_right_byte, split_n, index, atoi}
use codewalker.Forge.{ForgeContext, ForgeContextKind}

abbrev pub context_for : Bytes → Bytes → Bytes → ForgeContext
context_for url owner repo = record {
  kind = ForgeContextKind.unspecified;
  forge = bytes "github";
  owner = owner;
  repo = repo;
  base_ref = [];
  head_ref = [];
  pr_number = pos 0;
  pr_title = [];
  pr_description = [];
  pr_author = [];
  url = url;
}

parse_pull : ForgeContext → Option ℤ → Option ForgeContext
parse_pull fc none = none
parse_pull fc (some n) = some (record fc { kind = ForgeContextKind.pr; pr_number = n })

parse_compare : ForgeContext → Bytes → Option ℕ → Option ForgeContext
parse_compare fc ref none = none
parse_compare fc ref (some i) = some (record fc {
  kind = ForgeContextKind.comparison;
  base_ref = take i ref;
  head_ref = drop (i + 3) ref;
})

-- The `switch` on the fourth segment.
parse_kind : ForgeContext → Bytes → Bytes → Option ForgeContext
unfolding parse_pull parse_compare atoi index ◌==◌
parse_kind fc kind ref =
    if kind == bytes "pull"
    then parse_pull fc (atoi ref)
    else if kind == bytes "commit"
    then some (record fc { kind = ForgeContextKind.commit; head_ref = ref })
    else if kind == bytes "compare"
    then parse_compare fc ref (index ref (bytes "..."))
    else none

parse_parts : Bytes → List Bytes → Option ForgeContext
unfolding parse_kind ◌==◌
parse_parts url (site ∷ owner ∷ repo ∷ kind ∷ ref ∷ rest) =
    if site == bytes "github.com" then parse_kind (context_for url owner repo) kind ref else none
parse_parts url _ = none

unfoldable pub parse_url : Bytes → Option ForgeContext
unfolding parse_parts split_n trim_prefix trim_right_byte
parse_url url = parse_parts url (
    split_n
      (trim_right_byte (trim_prefix (trim_prefix url (bytes "https://")) (bytes "http://")) b'/')
      b'/' 6)
