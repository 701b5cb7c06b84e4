-- ===== src/Server/Forges.antt =====
-- server/fetch_file_at_ref.go, list_pull_requests.go and list_file_orderers.go, and the statuses that
-- open_review_session.go makes of the errors of a forge.
use codewalker.Forge.Orderers
use codewalker.Prelude.{
  ℕ, Bytes, bytes, ◌||◌, List, [], ◌∷◌, map, Option, none, some, Result, ok, err, ◌==◌,
  if◌then◌else◌,
}
use codewalker.Prelude.Int.{to_uint32}
use codewalker.Forge.{ForgeContext, ForgeError, ReviewPayload, PullRequest, ErrCode, typed, plain}
use codewalker.Forge.Host.{normalize_host, resolve}
use codewalker.Forge.Github.Url.{parse_url, context_for}
use codewalker.Forge.Github.Api.{Client, fetch_review, fetch_file, list_pull_requests}
use codewalker.Server.Stream.{Code, invalid_argument, not_found, internal, permission_denied}

-- `forgeErrToStatus`
unfoldable pub forge_err_to_status : ForgeError → Code
forge_err_to_status (typed ErrCode.auth_failed msg detail) = permission_denied
forge_err_to_status (typed ErrCode.not_found msg detail) = not_found
forge_err_to_status (typed ErrCode.unknown msg detail) = internal
forge_err_to_status plain = internal

-- The interface `ForgeHandler`.
pub record ForgeHandler : Type 0 where
  pub hosts : List Bytes
  pub parse_url : Bytes → Option ForgeContext
  pub fetch_review : ForgeContext → Bytes → Result ForgeError ReviewPayload
  pub fetch_file : ForgeContext → Bytes → Bytes → Bytes → Result ForgeError Bytes
  pub list_pull_requests : Bytes → Bytes → Bytes → Result ForgeError (List PullRequest)

-- The handler for GitHub, the only one that is registered.
abbrev pub github_handler : Client → ForgeHandler
github_handler c = record {
  hosts = bytes "github.com" ∷ [];
  parse_url = parse_url;
  fetch_review = fetch_review c;
  fetch_file = fetch_file c;
  list_pull_requests = list_pull_requests c;
}

unfoldable pub resolve_handler : List ForgeHandler → Bytes → Option ForgeHandler
unfolding resolve
resolve_handler handlers host = resolve (λ (h : ForgeHandler). h.hosts) handlers host

unfoldable pub to_status {ℓ} : {A : Type ℓ} → Result ForgeError A → Result Code A
unfolding forge_err_to_status
to_status (ok a) = ok a
to_status (err e) = err (forge_err_to_status e)

pub record FetchFileAtRefRequest : Type 0 where
  pub host : Bytes
  pub owner : Bytes
  pub repo : Bytes
  pub path : Bytes
  pub ref : Bytes
  pub forge_token : Bytes

file_from : FetchFileAtRefRequest → Option ForgeHandler → Result Code Bytes
unfolding to_status
file_from req none = err invalid_argument
file_from req (some h) =
    to_status (h.fetch_file (context_for [] req.owner req.repo) req.path req.ref req.forge_token)

unfoldable pub fetch_file_at_ref : List ForgeHandler → FetchFileAtRefRequest → Result Code Bytes
unfolding file_from resolve_handler normalize_host ◌==◌
fetch_file_at_ref handlers req =
    let host = normalize_host req.host in
    if host == [] || req.owner == [] || req.repo == [] || req.path == [] || req.ref == []
    then err invalid_argument
    else file_from req (resolve_handler handlers host)

pub record ListPullRequestsRequest : Type 0 where
  pub host : Bytes
  pub owner : Bytes
  pub repo : Bytes
  pub forge_token : Bytes

-- The number is an int32, given by its two's complement bits.
pub record PullRequestSummary : Type 0 where
  pub number : ℕ
  pub title : Bytes
  pub author : Bytes
  pub url : Bytes
  pub head_ref : Bytes

abbrev pull_request_summary : PullRequest → PullRequestSummary
pull_request_summary p = record {
  number = to_uint32 p.number;
  title = p.title;
  author = p.author;
  url = p.url;
  head_ref = p.head_ref;
}

summaries : Result ForgeError (List PullRequest) → Result Code (List PullRequestSummary)
unfolding forge_err_to_status
summaries (ok prs) = ok (map pull_request_summary prs)
summaries (err e) = err (forge_err_to_status e)

pull_requests_from :
    ListPullRequestsRequest → Option ForgeHandler → Result Code (List PullRequestSummary)
unfolding summaries
pull_requests_from req none = err invalid_argument
pull_requests_from req (some h) =
    summaries (h.list_pull_requests req.owner req.repo req.forge_token)

unfoldable pub list_open_pull_requests :
    List ForgeHandler → ListPullRequestsRequest → Result Code (List PullRequestSummary)
unfolding pull_requests_from resolve_handler normalize_host ◌==◌
list_open_pull_requests handlers req =
    let host = normalize_host req.host in
    if host == [] || req.owner == [] || req.repo == []
    then err invalid_argument
    else pull_requests_from req (resolve_handler handlers host)

-- `ListFileOrderers`: the name and the description of each orderer.
unfoldable pub list_file_orderers : List (Bytes × Bytes)
unfolding Orderers.name Orderers.description
list_file_orderers = map (λ o. (Orderers.name o, Orderers.description o)) Orderers.list_orderers
