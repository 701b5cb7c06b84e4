-- ===== src/Resolver.antt =====
-- internal/resolver: `New`, `selectBackend`, `Resolve` and the backends of the ecosystems.
pub mod Pinned
use codewalker.Prelude.{
  Bytes, bytes, Bool, true, false, List, [], ◌∷◌, ◌++◌, Option, none, some, Result, ok, err, ◌==◌,
  if◌then◌else◌,
}
use codewalker.Proto.{ExternalCallInfo}
use codewalker.Git.Manifest.{Manifest, Root, detect_manifest, lookup_version}

-- The implementations of `backend`, each with the manifest that it was made from.
pub data Backend : Type 0 where
  go_mod : Manifest → Backend
  npm : Manifest → Backend
  composer : Manifest → Backend
  fallback : Backend

unfoldable pub select_backend : Bytes → Option Manifest → Backend
unfolding ◌==◌
select_backend language none = fallback
select_backend language (some m) =
    if m.kind == bytes "gomod"
    then go_mod m
    else if m.kind == bytes "npm"
    then npm m
    else if m.kind == bytes "composer"
    then composer m
    else fallback

-- `docsURL`, `sourceURL` and `version`
pub record Links : Type 0 where
  pub docs_url : Bytes
  pub source_url : Bytes
  pub version : Bytes

unfoldable pub go_mod_links : Bytes → Bytes → Bytes → Links
unfolding ◌==◌
go_mod_links pkg symbol version =
    if version == []
    then record {
      docs_url = bytes "https://pkg.go.dev/" ++ (pkg ++ (bytes "#" ++ symbol));
      source_url = [];
      version = version;
    }
    else record {
      docs_url =
          bytes "https://pkg.go.dev/" ++ (pkg ++ (bytes "@" ++ (version ++ (bytes "#" ++ symbol))));
      source_url = bytes "https://cs.opensource.google/go/" ++ pkg;
      version = version;
    }

unfoldable pub npm_links : Bytes → Bytes → Links
unfolding ◌==◌
npm_links pkg version = record {
  docs_url =
      if version == []
      then bytes "https://www.npmjs.com/package/" ++ pkg
      else bytes "https://www.npmjs.com/package/" ++ (pkg ++ (bytes "/v/" ++ version));
  source_url = [];
  version = version;
}

unfoldable pub links : Backend → Bytes → Bytes → Links
unfolding go_mod_links npm_links lookup_version
links (go_mod m) pkg symbol = go_mod_links pkg symbol (lookup_version (some m) pkg)
links (npm m) pkg symbol = npm_links pkg (lookup_version (some m) pkg)
links (composer m) pkg symbol = record {
  docs_url = bytes "https://packagist.org/packages/" ++ pkg;
  source_url = [];
  version = lookup_version (some m) pkg;
}
links fallback pkg symbol = record { docs_url = []; source_url = []; version = [] }

-- `summarize` is `provider.SummarizeExternalCall` in a context: the package, the symbol and the
-- language give a summary or the text of an error.
pub record Resolver : Type 0 where
  pub summarize : Bytes → Bytes → Bytes → Result Bytes Bytes
  pub backend : Backend
  pub language : Bytes

unfoldable pub new_resolver : Root → Bytes → (Bytes → Bytes → Bytes → Result Bytes Bytes) → Resolver
unfolding detect_manifest select_backend
new_resolver root language summarize = record {
  summarize = summarize;
  backend = select_backend language (detect_manifest root);
  language = language;
}

unfoldable pub summary_text : Result Bytes Bytes → Bytes
summary_text (ok summary) = summary
summary_text (err e) = bytes "Could not generate summary: " ++ e

-- `Resolve`, which never fails.
unfoldable pub resolve : Resolver → Bytes → Bytes → ExternalCallInfo
unfolding links summary_text
resolve r pkg symbol =
    let found = links r.backend pkg symbol in
    record {
      package_name = pkg;
      symbol_name = symbol;
      llm_summary = summary_text (r.summarize pkg symbol r.language);
      docs_url = found.docs_url;
      source_url = found.source_url;
      version = found.version;
    }
