-- ===== src/Forge/Github/Api.antt =====
-- internal/forge/forges/github.go: the requests to GitHub's API and what is made of the answers. The
-- HTTP client and the decoders of JSON, base64 and query escapes are not the program's: they are the
-- record `Client`.
use codewalker.Prelude.{
  ℕ, Bytes, bytes, List, [], ◌∷◌, ◌++◌, map, Option, none, some, Result, ok, err, ◌>>=◌, ◌==◌, eqb,
  leb, take, if◌then◌else◌,
}
use codewalker.Prelude.Int.{ℤ}
use codewalker.Prelude.Strings.{itoa, trim_space}
use codewalker.Forge.{
  ForgeContext, ForgeContextKind, ReviewFile, ReviewPayload, PullRequest, ErrCode, ForgeError, Hunk,
  typed, plain,
}
use codewalker.Forge.Github.Hunks.{parse_hunks}

-- A body that cannot be read is `none`.
pub record Response : Type 0 where
  pub status_code : ℕ
  pub status : Bytes
  pub body : Option Bytes

pub record GhPr : Type 0 where
  pub number : ℤ
  pub title : Bytes
  pub body : Bytes
  pub user_login : Bytes
  pub base_ref : Bytes
  pub head_ref : Bytes

pub record GhFile : Type 0 where
  pub filename : Bytes
  pub previous_filename : Bytes
  pub status : Bytes
  pub additions : ℤ
  pub deletions : ℤ
  pub patch : Bytes

pub record GhCommit : Type 0 where
  pub sha : Bytes
  pub files : List GhFile
  pub parents : List Bytes

-- An item of the list of pull requests.
pub record GhItem : Type 0 where
  pub number : ℤ
  pub title : Bytes
  pub html_url : Bytes
  pub user_login : Bytes
  pub head_ref : Bytes

pub record GhContent : Type 0 where
  pub content : Bytes
  pub encoding : Bytes

-- `api_do` is the round trip of `apiDo`: of a URL and a token, the response or none if it failed. A
-- decoder gives none if it fails.
pub record Client : Type 0 where
  pub api_do : Bytes → Bytes → Option Response
  pub decode_pr : Bytes → Option GhPr
  pub decode_files : Bytes → Option (List GhFile)
  pub decode_commit : Bytes → Option GhCommit
  pub decode_comparison : Bytes → Option (List GhFile)
  pub decode_items : Bytes → Option (List GhItem)
  pub decode_content : Bytes → Option GhContent
  pub decode_base64 : Bytes → Option Bytes
  pub query_escape : Bytes → Bytes
  -- the field of the handler that overrides the URL of the API
  pub api_base_url : Bytes

abbrev pub err_body_max_bytes : ℕ
err_body_max_bytes = 500

read_body_snippet : Option Bytes → Bytes
unfolding trim_space
read_body_snippet none = []
read_body_snippet (some body) = trim_space (take err_body_max_bytes body)

abbrev auth_failed_message : Bytes → Bytes
auth_failed_message status = bytes "GitHub API auth failed (" ++ (status ++ bytes ")")

unfoldable pub check_status : Response → Result ForgeError (Unit {0})
unfolding read_body_snippet
check_status resp =
    if eqb resp.status_code 401
    then err
        (typed ErrCode.auth_failed (auth_failed_message resp.status) (read_body_snippet resp.body))
    else if eqb resp.status_code 403
    then err
        (typed ErrCode.auth_failed (auth_failed_message resp.status) (read_body_snippet resp.body))
    else if eqb resp.status_code 404
    then err
        (typed ErrCode.not_found (bytes "GitHub API not found (" ++ (resp.status ++ bytes ")")) [])
    else if leb 300 resp.status_code
    then err plain
    else ok tt

abbrev or_plain {ℓ} : {A : Type ℓ} → Option A → Result ForgeError A
or_plain none = err plain
or_plain (some a) = ok a

decode {ℓ} : {A : Type ℓ} → (Bytes → Option A) → Option Bytes → Result ForgeError A
decode f none = err plain
decode f (some body) = or_plain (f body)

-- A request, the check of its status, and the decoding of its body.
fetch {ℓ} : {A : Type ℓ} → Client → Bytes → Bytes → (Bytes → Option A) → Result ForgeError A
unfolding check_status decode
fetch c url token f = do
  resp ← or_plain (c.api_do url token)
  _ ← check_status resp
  decode f resp.body

unfoldable pub base_url : Client → Bytes
unfolding ◌==◌
base_url c = if c.api_base_url == [] then bytes "https://api.github.com" else c.api_base_url

-- "{base}/repos/{owner}/{repo}"
repo_url : Client → Bytes → Bytes → Bytes
unfolding base_url
repo_url c owner repo = base_url c ++ (bytes "/repos/" ++ (owner ++ (bytes "/" ++ repo)))

unfoldable pub gh_status_to_change_kind : Bytes → Bytes
unfolding ◌==◌
gh_status_to_change_kind status =
    if status == bytes "added"
    then bytes "ADDED"
    else if status == bytes "removed"
    then bytes "DELETED"
    else if status == bytes "renamed"
    then bytes "RENAMED"
    else bytes "MODIFIED"

unfoldable pub file_hunks : Bytes → Result ForgeError (List Hunk)
unfolding parse_hunks
file_hunks [] = ok []
file_hunks (c ∷ patch) = elim (parse_hunks (c ∷ patch)) [ ok hunks ↦ ok hunks | err e ↦ err plain ]

unfoldable pub gh_files_to_review_files : List GhFile → Result ForgeError (List ReviewFile)
unfolding file_hunks gh_status_to_change_kind
gh_files_to_review_files [] = ok []
gh_files_to_review_files (f ∷ files) = do
  hunks ← file_hunks f.patch
  rest ← gh_files_to_review_files files
  ok (
      record {
        path = f.filename;
        language = [];
        change_kind = gh_status_to_change_kind f.status;
        old_path = f.previous_filename;
        hunks = hunks;
        lines_added = f.additions;
        lines_removed = f.deletions;
      }
      ∷ rest)

unfoldable pub fetch_pr_review : Client → ForgeContext → Bytes → Result ForgeError ReviewPayload
unfolding fetch repo_url gh_files_to_review_files itoa
fetch_pr_review c fc token = do
  pr ←
      fetch c (repo_url c fc.owner fc.repo ++ (bytes "/pulls/" ++ itoa fc.pr_number)) token
        c.decode_pr
  files ←
      fetch c
        (repo_url c fc.owner fc.repo
          ++ (bytes "/pulls/" ++ (itoa fc.pr_number ++ bytes "/files?per_page=100")))
        token c.decode_files
  review_files ← gh_files_to_review_files files
  ok (record {
    context = record fc {
      pr_title = pr.title;
      pr_description = pr.body;
      pr_author = pr.user_login;
      base_ref = pr.base_ref;
      head_ref = pr.head_ref;
    };
    files = review_files;
  })

first_parent : Bytes → List Bytes → Bytes
first_parent base [] = base
first_parent base (p ∷ parents) = p

unfoldable pub fetch_commit_review : Client → ForgeContext → Bytes → Result ForgeError ReviewPayload
unfolding fetch repo_url gh_files_to_review_files first_parent
fetch_commit_review c fc token = do
  commit ←
      fetch c (repo_url c fc.owner fc.repo ++ (bytes "/commits/" ++ fc.head_ref)) token
        c.decode_commit
  review_files ← gh_files_to_review_files commit.files
  ok (record {
    context = record fc {
      head_ref = commit.sha;
      base_ref = first_parent fc.base_ref commit.parents;
    };
    files = review_files;
  })

unfoldable pub fetch_comparison_review :
    Client → ForgeContext → Bytes → Result ForgeError ReviewPayload
unfolding fetch repo_url gh_files_to_review_files
fetch_comparison_review c fc token = do
  files ←
      fetch c
        (repo_url c fc.owner fc.repo
          ++ (bytes "/compare/" ++ (fc.base_ref ++ (bytes "..." ++ fc.head_ref))))
        token c.decode_comparison
  review_files ← gh_files_to_review_files files
  ok (record { context = fc; files = review_files })

unfoldable pub fetch_review : Client → ForgeContext → Bytes → Result ForgeError ReviewPayload
unfolding fetch_pr_review fetch_commit_review fetch_comparison_review
fetch_review c fc token = elim fc.kind [
  | ForgeContextKind.pr ↦ fetch_pr_review c fc token
  | ForgeContextKind.commit ↦ fetch_commit_review c fc token
  | ForgeContextKind.comparison ↦ fetch_comparison_review c fc token
  | ForgeContextKind.unspecified ↦ err plain
]

-- `strings.ReplaceAll(s, "\n", "")`
drop_newlines : Bytes → Bytes
drop_newlines [] = []
drop_newlines (b ∷ s) = let rest = drop_newlines s in if eqb b b'\n' then rest else b ∷ rest

file_content : Client → GhContent → Result ForgeError Bytes
unfolding drop_newlines ◌==◌
file_content c content =
    if content.encoding == bytes "base64"
    then or_plain (c.decode_base64 (drop_newlines content.content))
    else err plain

unfoldable pub fetch_file : Client → ForgeContext → Bytes → Bytes → Bytes → Result ForgeError Bytes
unfolding fetch repo_url file_content
fetch_file c fc path ref token = do
  content ←
      fetch c
        (repo_url c fc.owner fc.repo
          ++ (bytes "/contents/" ++ (path ++ (bytes "?ref=" ++ c.query_escape ref))))
        token c.decode_content
  file_content c content

unfoldable pub list_pull_requests :
    Client → Bytes → Bytes → Bytes → Result ForgeError (List PullRequest)
unfolding fetch repo_url
list_pull_requests c owner repo token = do
  items ←
      fetch c (repo_url c owner repo ++ bytes "/pulls?state=open&per_page=100") token c.decode_items
  ok (
      map
        (λ (it : GhItem). record {
          number = it.number;
          title = it.title;
          author = it.user_login;
          url = it.html_url;
          head_ref = it.head_ref;
        })
        items)
