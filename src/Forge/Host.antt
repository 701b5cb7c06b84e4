-- ===== src/Forge/Host.antt =====
-- internal/forge/host.go and registry.go: the host of a request, and the handler that claims it.
use codewalker.Prelude.{
  Bytes, bytes, Bool, true, false, List, [], ◌∷◌, Option, none, some, ◌==◌, if◌then◌else◌, ◌++◌,
}
use codewalker.Prelude.Strings.{
  has_prefix, has_suffix, trim_prefix, trim_suffix, trim_space, to_lower,
}

unfoldable pub normalize_host : Bytes → Bytes
unfolding trim_prefix trim_suffix trim_space to_lower
normalize_host s = to_lower (
    trim_suffix
      (trim_suffix (trim_prefix (trim_prefix (trim_space s) (bytes "https://")) (bytes "http://"))
        (bytes "/"))
      (bytes "."))

-- `pattern[1:]`, for a pattern that begins with "*."
abbrev rest_of : Bytes → Bytes
rest_of [] = []
rest_of (c ∷ s) = s

unfoldable pub match_host : Bytes → Bytes → Bool
unfolding has_prefix has_suffix ◌==◌
match_host pattern host =
    if has_prefix pattern (bytes "*.") then has_suffix host (rest_of pattern) else pattern == host

unfoldable pub claims : List Bytes → Bytes → Bool
unfolding match_host
claims [] host = false
claims (p ∷ patterns) host =
    let later = claims patterns host in if match_host p host then true else later

-- `Register`
unfoldable pub register {ℓ} : {H : Type ℓ} → H → List H → List H
register h handlers = handlers ++ h ∷ []

-- `Resolve` over the registered handlers, in the order of their registration: the first that claims
-- the host. A handler is given with the patterns that its `Hosts` returns.
module _ {ℓ} {H : Type ℓ} (hosts : H → List Bytes) where
  unfoldable pub resolve : List H → Bytes → Option H
  unfolding claims
  resolve [] host = none
  resolve (h ∷ handlers) host =
      let later = resolve handlers host in if claims (hosts h) host then some h else later
