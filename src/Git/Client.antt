-- ===== src/Git/Client.antt =====
-- internal/git/client.go: `ReadFile`, `ListFiles` and `resolveRef`. What go-git and the disk answer is
-- the parameter `Repository`; its types of hashes, commits, trees, files and errors are opaque.
use codewalker.Prelude.{
  Bytes, bytes, true, false, List, [], ◌∷◌, ◌++◌, Option, Result, ok, err, ◌>>=◌, length, leb, ◌==◌,
  if◌then◌else◌,
}

pub record Repository (Hash Commit Tree File Reader Error : Type 0) : Type 0 where
  pub new_hash : Bytes → Hash
  pub commit_object : Hash → Result Error Commit
  pub resolve_revision : Bytes → Result Error Hash
  pub tree_of : Commit → Result Error Tree
  pub file_at : Tree → Bytes → Result Error File
  pub reader : File → Result Error Reader
  pub read_all : Reader → Result Error Bytes
  pub file_names : Tree → List Bytes × Option Error
  pub read_working_tree : Bytes → Result Error Bytes

-- An error of the client, with the one that it wraps, or one that it passes on.
pub data GitError (Error : Type 0) : Type 0 where
  resolve : Bytes → Error → GitError Error
  commit : Error → GitError Error
  get_tree : Error → GitError Error
  file : Bytes → Bytes → Error → GitError Error
  open_file : Bytes → Error → GitError Error
  passed : Error → GitError Error

abbrev pub wrap {ℓ} :
    {A : Type ℓ} {Error : Type 0}
    → (Error → GitError Error)
    → Result Error A
    → Result (GitError Error) A
wrap f (ok a) = ok a
wrap f (err e) = err (f e)

module _ {Hash Commit Tree File Reader Error : Type 0}
    (repo : Repository Hash Commit Tree File Reader Error) where
  -- The prefixes in order, after `first` failed: the first success, or the last failure.
  unfoldable pub with_prefixes : List Bytes → Bytes → Result Error Hash → Result Error Hash
  with_prefixes prefixes ref (ok hash) = ok hash
  with_prefixes [] ref (err e) = err e
  with_prefixes (prefix ∷ prefixes) ref (err e) =
      with_prefixes prefixes ref (repo.resolve_revision (prefix ++ ref))

  abbrev pub ref_prefixes : List Bytes
  ref_prefixes = bytes "refs/heads/" ∷ bytes "refs/tags/" ∷ []

  unfoldable pub resolve_symbolic : Bytes → Result (GitError Error) Commit
  unfolding with_prefixes
  resolve_symbolic ref =
      wrap (resolve ref) (with_prefixes ref_prefixes ref (repo.resolve_revision ref)) >>= λ hash.
      wrap commit (repo.commit_object hash)

  unfoldable pub resolve_ref : Bytes → Result (GitError Error) Commit
  unfolding resolve_symbolic
  resolve_ref ref = elim (leb 7 (length ref)) [
    | false ↦ resolve_symbolic ref
    | true ↦ elim (repo.commit_object (repo.new_hash ref)) [
      | ok found ↦ ok found
      | err _ ↦ resolve_symbolic ref
    ]
  ]

  unfoldable pub read_at : Bytes → Bytes → Result (GitError Error) Bytes
  unfolding resolve_ref
  read_at ref file_path = resolve_ref ref >>= λ found.
      wrap get_tree (repo.tree_of found) >>= λ tree.
      wrap (file file_path ref) (repo.file_at tree file_path) >>= λ f.
      wrap (open_file file_path) (repo.reader f) >>= λ r. wrap passed (repo.read_all r)

  unfoldable pub read_file : Bytes → Bytes → Result (GitError Error) Bytes
  unfolding ◌==◌ read_at
  read_file ref file_path =
      if ref == [] then wrap passed (repo.read_working_tree file_path) else read_at ref file_path

  -- The paths, and the error of the loop over them if it failed; `paths` may be partial then.
  unfoldable pub list_files : Bytes → Result (GitError Error) (List Bytes × Option Error)
  unfolding ◌==◌ resolve_ref
  list_files ref = resolve_ref (if ref == [] then bytes "HEAD" else ref) >>= λ found.
      wrap get_tree (repo.tree_of found) >>= λ tree. ok (repo.file_names tree)
