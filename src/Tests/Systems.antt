-- ===== src/Tests/Systems.antt =====
-- The parts together: a session on a Go file in the working tree of a repository.
use codewalker.Prelude.{
  ℕ, Bytes, bytes, [], none, some, ok, err, ◌≡◌, ◌≢◌, ◌==◌, arith, Option, Result, ap, refl,
  if◌then◌else◌,
}
use codewalker.Parser.Tree.{Tree, ended, children_of}
use codewalker.Parser.Golang.{symbols}
use codewalker.Parser.Registry.{file_ext}
use codewalker.Prelude.Strings.{to_lower}
use codewalker.Git.Client.{Repository, read_file}
use codewalker.Server.OpenSession.{open_session}
use codewalker.Server.System.{
  HasFunctions, Grammars, IsGoFile, program, read_from, open_session-sources_of,
}
use codewalker.Server.Navigate.Health.{IsHealthy}
use codewalker.Tests.Parsers.{grammar, declaration, declarations, declarations-IsNamed}
use codewalker.Tests.Answers.{a_client}
use codewalker.Tests.Sessions.{a_store, a_store-IsHealthy, a_file_request, a_session_stream}

-- A repository without commits, with one file.
abbrev a_repository : Repository ℕ ℕ ℕ ℕ ℕ Bytes
a_repository = record {
  new_hash = λ ref. 0;
  commit_object = λ hash. err (bytes "no commit");
  resolve_revision = λ ref. err (bytes "no ref");
  tree_of = λ commit. err (bytes "no tree");
  file_at = λ tree path. err (bytes "no file");
  reader = λ file. err (bytes "no reader");
  read_all = λ reader. err (bytes "no bytes");
  file_names = λ tree. ([], none);
  read_working_tree = λ path. ok (bytes "func f() {}");
}

declarations-cons : symbols declarations ≢ []
unfolding symbols codewalker.Parser.Tree.field_text ◌==◌
declarations-cons e = cc

abbrev func_text : Bytes
func_text = bytes "func f() {}"

-- A text without a function is accepted too, and has no declaration.
abbrev go_grammar : Bytes → Result Bytes Tree
go_grammar src =
    if src == func_text
    then ok (declaration (bytes "source_file") declarations)
    else ok (declaration (bytes "source_file") ended)

abbrev grammars : Grammars
grammars = record { golang = go_grammar; php = grammar; python = grammar; typescript = grammar }

func_text-HasFunctions : HasFunctions go_grammar func_text
unfolding ◌==◌
func_text-HasFunctions root run =
    let same : children_of root ≡ declarations = ground arith in
    (rw same declarations-IsNamed, rw same declarations-cons)

text_or : Option Bytes → Bytes
text_or none = []
text_or (some text) = text

file-HasFunctions :
    (src : Bytes)
    → read_from (some a_repository) (bytes "") (bytes "f.go") ≡ some src
    → HasFunctions go_grammar src
unfolding read_from read_file text_or
file-HasFunctions src is_read =
    let same : func_text ≡ src = ap text_or is_read in rw (← same) func_text-HasFunctions

f-IsGoFile : IsGoFile (bytes "f.go")
unfolding file_ext to_lower
f-IsGoFile = refl

open_session-sources_of_example :
    IsHealthy
      (open_session
        (program (λ path. some a_repository) grammars a_client (λ text. none))
        (bytes "/r")
        100
        (bytes "s2")
        a_store
        a_file_request
        a_session_stream).0
open_session-sources_of_example =
    open_session-sources_of (λ path. some a_repository) grammars a_client (λ text. none)
      (bytes "/r") 100 (bytes "s2") a_store a_file_request a_session_stream f-IsGoFile
      file-HasFunctions a_store-IsHealthy
