-- ===== src/Server/System.antt =====
-- The parts together: what server/open_session.go takes from internal/git, internal/parser and
-- internal/llm, made of their models. A call that fails gives nothing, as does one that panics.
use codewalker.Prelude.{
  ℕ, Bytes, bytes, Bool, true, false, List, [], ◌∷◌, Option, none, some, Result, ok, err, ◌≡◌, ◌≢◌,
  >>=-eq-ok, ◌++◌, refl, ap, sym, arith, ◌==◌,
}
use codewalker.Graph.Builder.{Node}
use codewalker.Parser.Tree.{Tree, children_of}
use codewalker.Parser.Golang.{extract_top_level, symbols}
use codewalker.Parser.Golang.Functions.{IsNamed, AllNamed, extract_top_level-AllNamed}
use codewalker.Parser.Registry.{
  Handlers, ParserError, handler_for, parse, register, failed, file_ext, register_all,
}
use codewalker.Prelude.Assoc.{lookup, put}
use codewalker.Prelude.Strings.{to_lower}
use codewalker.Parser.Handlers.{
  Grammar, go_handler, php_handler, py_handler, ts_handler, parse_ctx, or_panic,
}
use codewalker.Git.Client.{Repository, read_file}
use codewalker.Llm.Anthropic.{Client, extract_glossary_terms}
use codewalker.Server.Stream.{Stream}
use codewalker.Server.OpenReview.{SessionEvent}
use codewalker.Server.OpenSession.{Sources, Candidate, OpenSessionRequest, open_session}
use codewalker.Server.OpenSession.Laws.{repo_of, open_session-IsHealthy}
use codewalker.Server.Navigate.Health.{IsHealthy}
use codewalker.Session.Store.{Store}

abbrev if_ok {ℓ κ} : {E : Type ℓ} {A : Type κ} → Result E A → Option A
if_ok (ok a) = some a
if_ok (err e) = none

abbrev or_none {ℓ} : {E : Type ℓ} → Result E (List Candidate) → List Candidate
or_none (ok candidates) = candidates
or_none (err e) = []

module _ {Hash Commit Tree File Reader Error : Type 0} where
  abbrev is_open : Option (Repository Hash Commit Tree File Reader Error) → Bool
  is_open none = false
  is_open (some repo) = true

  unfoldable pub read_from :
      Option (Repository Hash Commit Tree File Reader Error) → Bytes → Bytes → Option Bytes
  unfolding read_file
  read_from none ref path = none
  read_from (some repo) ref path = if_ok (read_file repo ref path)

  -- `repos` is what `git.Open` finds at a path.
  unfoldable pub sources_of :
      (Bytes → Option (Repository Hash Commit Tree File Reader Error))
      → Handlers
      → Client
      → (Bytes → Option (List Candidate))
      → Sources
  unfolding read_from parse extract_glossary_terms
  sources_of repos handlers client unmarshal = record {
    open_repo = λ path. is_open (repos path);
    read_file = λ path ref file. read_from (repos path) ref file;
    parse = λ src path. if_ok (parse handlers src path);
    extract_glossary_terms = λ req. or_none (extract_glossary_terms client unmarshal req);
  }

-- The tree of a source, if it has one, has a function or a method, and all of them have names.
abbrev pub HasFunctions : Grammar → Bytes → Type 0
HasFunctions grammar src =
    (root : Tree)
    → grammar src ≡ ok root
    → IsNamed (children_of root) × (symbols (children_of root) ≢ [])

AllNamed-cons :
    (names : List Bytes) (nodes : List Node) → AllNamed names nodes → names ≢ [] → nodes ≢ []
AllNamed-cons [] nodes all some_name e = some_name refl
AllNamed-cons (n ∷ names) [] all some_name e = all
AllNamed-cons (n ∷ names) (nd ∷ nodes) all some_name e = cc

if_ok-some {ℓ κ} : {E : Type ℓ} {A : Type κ} (r : Result E A) {a : A} → if_ok r ≡ some a → r ≡ ok a
if_ok-some (ok b) e = ground arith
if_ok-some (err f) e = cc

parse_ctx-ok :
    (context : Bytes) (grammar : Grammar) (src : Bytes) {root : Tree}
    → parse_ctx context grammar src ≡ ok root
    → grammar src ≡ ok root
unfolding parse_ctx
parse_ctx-ok context grammar src run = of (grammar src) run
  where
    of :
        (answer : Result Bytes Tree) {root : Tree}
        → elim answer as (λ _. Result ParserError Tree) [
          | err e ↦ err (failed (context ++ (bytes ": " ++ e)))
          | ok r ↦ ok r
        ]
          ≡ ok root
        → answer ≡ ok root
    of (err e) run = cc
    of (ok r) run = ground arith

go_nodes :
    (grammar : Grammar) (src : Bytes) (nodes : List Node)
    → HasFunctions grammar src
    → (go_handler grammar).nodes src ≡ ok nodes
    → nodes ≢ []
unfolding go_handler or_panic
go_nodes grammar src nodes has run =
    let (root, parsed, extracted) =
      >>=-eq-ok (parse_ctx (bytes "golang parser") grammar src)
        (λ root. or_panic (extract_top_level (children_of root))) run in
    let (named, some_name) = has root (parse_ctx-ok (bytes "golang parser") grammar src parsed) in
    let (found, all, pairs) = extract_top_level-AllNamed (children_of root) named in
    let same : nodes ≡ found = ground arith in
    rw same (AllNamed-cons (symbols (children_of root)) found pairs some_name)

abbrev nodes_in : Result ParserError (List Node × Bytes) → List Node
nodes_in (ok (nodes, language)) = nodes
nodes_in (err e) = []

-- The grammars of the four languages.
pub record Grammars : Type 0 where
  pub golang : Grammar
  pub php : Grammar
  pub python : Grammar
  pub typescript : Grammar

-- The registry after the package is loaded: each file of internal/parser/languages registers its
-- handler.
unfoldable pub loaded : Grammars → Handlers
unfolding register go_handler php_handler py_handler ts_handler
loaded g = register (ts_handler g.typescript) (
    register (py_handler g.python)
      (register (php_handler g.php) (register (go_handler g.golang) [])))

abbrev pub IsGoFile : Bytes → Type 0
IsGoFile path = to_lower (file_ext path) ≡ bytes ".go"

handler_for-go :
    (g : Grammars) (path : Bytes)
    → IsGoFile path
    → handler_for (loaded g) path ≡ ok (go_handler g.golang)
unfolding loaded handler_for lookup put register_all ◌==◌
handler_for-go g path is_go = rw (handler_for, is_go) refl

FindsNodes-go :
    (g : Grammars) (src path language : Bytes) (nodes : List Node)
    → IsGoFile path
    → HasFunctions g.golang src
    → parse (loaded g) src path ≡ ok (nodes, language)
    → nodes ≢ []
unfolding parse
FindsNodes-go g src path language nodes is_go has run =
    let with_go = rw (handler_for-go g path is_go) at run in
    let (found, parsed, last) =
      >>=-eq-ok ((go_handler g.golang).nodes src)
        (λ nodes. ok (nodes, (go_handler g.golang).language)) with_go in
    let same : nodes ≡ found = sym (ap nodes_in last) in
    rw same (go_nodes g.golang src found has parsed)

module _ {Hash Commit Tree File Reader Error : Type 0}
    (repos : Bytes → Option (Repository Hash Commit Tree File Reader Error)) (g : Grammars)
    (client : Client) (unmarshal : Bytes → Option (List Candidate)) where
  -- What the program makes of its parts.
  abbrev pub program : Sources
  program = sources_of repos (loaded g) client unmarshal

  -- With the repository, the four handlers and the model of this development: if the request names a
  -- Go file with a function or a method, and all of them have names, `OpenSession` keeps a healthy
  -- registry healthy, whether it succeeds or fails.
  pub open_session-sources_of :
      (repo_root : Bytes) (now : ℕ) (id : Bytes) (st : Store) (req : OpenSessionRequest)
      (stream : Stream SessionEvent)
      → IsGoFile req.file_path
      → ((src : Bytes)
          → read_from (repos (repo_of repo_root req)) req.ref req.file_path ≡ some src
          → HasFunctions g.golang src)
      → IsHealthy st
      → IsHealthy (open_session program repo_root now id st req stream).0
  unfolding sources_of
  open_session-sources_of repo_root now id st req stream is_go has h =
      open_session-IsHealthy program repo_root now id st req stream
        (λ src language nodes is_read run.
          FindsNodes-go g src req.file_path language nodes is_go (has src is_read)
            (if_ok-some (parse (loaded g) src req.file_path) run))
        h
