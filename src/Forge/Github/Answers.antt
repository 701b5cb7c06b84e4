-- ===== src/Forge/Github/Answers.antt =====
-- internal/forge/forges/github.go: what the status of a response leads to, and the files of a review.
use codewalker.Prelude.{
  false, List, [], ◌∷◌, Result, ok, err, ◌≡◌, >>=-eq-ok, refl, ap, ◌∙◌, arith, leb, ◌↔◌, ◌≢◌, Bytes,
  bytes, ◌==◌, eq_iff, Bool-cases, inl, inr, length,
}
use codewalker.Prelude.Strings.{split}
use mathlib.Core.Path.{subst}
use codewalker.Forge.{ReviewFile, Hunk, ForgeError, plain}
use codewalker.Forge.Github.Hunks.{HunkError, parse_hunks}
use codewalker.Forge.Github.Hunks.Lossless.{
  raw_diffs, unlines, from_header, count_headers, raw_diffs-parse_hunks, length-parse_hunks,
  parse_hunks-empty,
}
use codewalker.Forge.Github.Api.{
  Response, GhFile, check_status, gh_files_to_review_files, gh_status_to_change_kind, file_hunks,
}

accepted : (resp : Response) → leb 300 resp.status_code ≡ false → check_status resp ≡ ok tt
unfolding check_status
accepted resp h = ground arith

below : (resp : Response) → check_status resp ≡ ok tt → leb 300 resp.status_code ≡ false
unfolding check_status
below resp h = ground arith

-- A response is accepted exactly if its status is below 300.
pub check_status-ok :
    (resp : Response) → (check_status resp ≡ ok tt) ↔ (leb 300 resp.status_code ≡ false)
check_status-ok resp = (below resp, accepted resp)

value_or {ℓ κ} : {E : Type ℓ} {A : Type κ} → A → Result E A → A
value_or d (ok a) = a
value_or d (err e) = d

-- What a review file says of the file of the answer: its names and counts, how the file changed,
-- and the lines of the patch from the first header on, one hunk for each header.
pub record IsReviewOf (f : GhFile) (r : ReviewFile) : Type 0 where
  pub path : r.path ≡ f.filename
  pub old_path : r.old_path ≡ f.previous_filename
  pub counts : (r.lines_added ≡ f.additions) × (r.lines_removed ≡ f.deletions)
  pub added : f.status ≡ bytes "added" → r.change_kind ≡ bytes "ADDED"
  pub removed : f.status ≡ bytes "removed" → r.change_kind ≡ bytes "DELETED"
  pub renamed : f.status ≡ bytes "renamed" → r.change_kind ≡ bytes "RENAMED"
  pub other :
      f.status ≢ bytes "added"
      → f.status ≢ bytes "removed"
      → f.status ≢ bytes "renamed"
      → r.change_kind ≡ bytes "MODIFIED"
  pub spelled : raw_diffs r.hunks ≡ unlines (from_header (split f.patch b'\n'))
  pub each_header : length r.hunks ≡ count_headers (split f.patch b'\n')

not_eq : (s t : Bytes) → s ≢ t → (s == t) ≡ false
not_eq s t other = elim (Bool-cases (s == t)) [
  | inl e ↦ absurd (other ((eq_iff s t).0 e))
  | inr e ↦ e
]

change_kind-other :
    (s : Bytes)
    → s ≢ bytes "added"
    → s ≢ bytes "removed"
    → s ≢ bytes "renamed"
    → gh_status_to_change_kind s ≡ bytes "MODIFIED"
unfolding gh_status_to_change_kind
change_kind-other s a b c =
    rw (not_eq s (bytes "added") a, not_eq s (bytes "removed") b, not_eq s (bytes "renamed") c) refl

if_parsed :
    (r : Result HunkError (List Hunk)) {hs : List Hunk}
    → elim r as (λ _. Result ForgeError (List Hunk)) [ ok hunks ↦ ok hunks | err e ↦ err plain ]
      ≡ ok hs
    → r ≡ ok hs
if_parsed (ok hunks) e = ground arith
if_parsed (err f) e = cc

-- The hunks of a patch that may be empty.
file_hunks-spelled :
    (patch : Bytes) {hs : List Hunk}
    → file_hunks patch ≡ ok hs
    → (raw_diffs hs ≡ unlines (from_header (split patch b'\n')))
      × (length hs ≡ count_headers (split patch b'\n'))
unfolding file_hunks value_or
file_hunks-spelled [] {hs} e =
    let same : [] ≡ hs = ap (value_or []) e in
    let parsed = parse_hunks-empty ∙ ap ok same in
    (raw_diffs-parse_hunks [] parsed, length-parse_hunks [] parsed)
file_hunks-spelled (c ∷ patch) e =
    let parsed = if_parsed (parse_hunks (c ∷ patch)) e in
    (raw_diffs-parse_hunks (c ∷ patch) parsed, length-parse_hunks (c ∷ patch) parsed)

review_of :
    (f : GhFile) (hs : List Hunk)
    → file_hunks f.patch ≡ ok hs
    → IsReviewOf f (record {
      path = f.filename;
      language = [];
      change_kind = gh_status_to_change_kind f.status;
      old_path = f.previous_filename;
      hunks = hs;
      lines_added = f.additions;
      lines_removed = f.deletions;
    })
unfolding gh_status_to_change_kind ◌==◌
review_of f hs e = record {
  path = refl;
  old_path = refl;
  counts = (refl, refl);
  added = λ q. ap gh_status_to_change_kind q;
  removed = λ q. ap gh_status_to_change_kind q;
  renamed = λ q. ap gh_status_to_change_kind q;
  other = change_kind-other f.status;
  spelled = (file_hunks-spelled f.patch e).0;
  each_header = (file_hunks-spelled f.patch e).1;
}

-- File by file, in order.
abbrev pub AreReviewsOf : List GhFile → List ReviewFile → Type 0
AreReviewsOf [] [] = Unit
AreReviewsOf (f ∷ fs) (r ∷ rs) = IsReviewOf f r × AreReviewsOf fs rs
AreReviewsOf _ _ = ⊥

-- The review files are those of the answer, in order: each has the names and counts of its file; an
-- added, removed or renamed file is "ADDED", "DELETED" or "RENAMED", any other "MODIFIED"; the hunks
-- spell the lines of the patch from its first header on, one for each header.
pub gh_files_to_review_files-each :
    (files : List GhFile) {out : List ReviewFile}
    → gh_files_to_review_files files ≡ ok out
    → AreReviewsOf files out
unfolding gh_files_to_review_files value_or
gh_files_to_review_files-each [] {out} h = subst (AreReviewsOf []) (ap (value_or []) h) tt
gh_files_to_review_files-each (f ∷ files) {out} h =
    let (hunks, eh, k) = >>=-eq-ok (file_hunks f.patch) _ h in
    let (rest, er, q) = >>=-eq-ok (gh_files_to_review_files files) _ k in
    subst (AreReviewsOf (f ∷ files)) (ap (value_or []) q)
      (review_of f hunks eh, gh_files_to_review_files-each files er)
