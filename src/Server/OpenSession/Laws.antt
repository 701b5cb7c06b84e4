-- ===== src/Server/OpenSession/Laws.antt =====
-- server/open_session.go: `OpenSession` keeps the registry in order.
use codewalker.Prelude.{
  if◌then◌else◌, ℕ, Bytes, List, [], ◌∷◌, Option, none, some, Result, ok, err, ◌≡◌, ◌≢◌, refl, sym,
  ap, ◌∙◌, inl, inr, ◌==◌, Bool-cases, bytes,
}
use mathlib.Core.Path.{subst}
use codewalker.Proto.{GlossaryTerm}
use codewalker.Graph.Builder.{Node, build}
use codewalker.Graph.Builder.Laws.{build-IsOnGraph}
use codewalker.Graph.Walker.{new_walker}
use codewalker.Graph.Walker.Moves.{IsOnGraph}
use codewalker.Session.{Session, new_session, add_glossary_term}
use codewalker.Session.Store.{Store}
use codewalker.Server.Stream.{Code, Stream}
use codewalker.Server.Navigate.Health.{IsHealthy, set-IsHealthy}
use codewalker.Server.OpenReview.{SessionEvent, then_with, emit, progress}
use codewalker.Server.OpenReview.Gives.{Gives, then_send-Gives, then_with-Gives}
use codewalker.Server.OpenSession.{
  Sources, OpenSessionRequest, Parsed, add_terms, file_session, graph_of, glossary_of, register,
  parse_file, open_session, or_fail, reading, building, parse_source, invalid_argument, parsing,
  extracting, parsed_as, creating, opened_repo, not_found,
}

walker-add_terms : (ts : List GlossaryTerm) (s : Session) → (add_terms s ts).walker ≡ s.walker
unfolding add_terms add_glossary_term
walker-add_terms [] s = refl
walker-add_terms (t ∷ ts) s = walker-add_terms ts (add_glossary_term s t)

walker-file_session :
    (sources : Sources) (now : ℕ) (id : Bytes) (req : OpenSessionRequest) (p : Parsed)
    → (file_session sources now id req p).walker ≡ new_walker (graph_of req p)
unfolding file_session
walker-file_session sources now id req p =
    walker-add_terms (glossary_of sources req p) _ ∙ unfold new_session in refl

or_fail-ok {ℓ} : {A : Type ℓ} (c : Code) (o : Option A) {a : A} → or_fail c o ≡ ok a → o ≡ some a
unfolding or_fail
or_fail-ok c none h = cc
or_fail-ok c (some b) h = cc

-- The parser finds a node in the file that the request names, if that is read and accepted.
abbrev pub FindsNodes : Sources → Bytes → OpenSessionRequest → Type 0
FindsNodes sources repo req =
    (src language : Bytes) (nodes : List Node)
    → sources.read_file repo req.ref req.file_path ≡ some src
    → sources.parse src req.file_path ≡ some (nodes, language)
    → nodes ≢ []

-- The repository of a request: its own, or the server's.
abbrev pub repo_of : Bytes → OpenSessionRequest → Bytes
repo_of repo_root req = if req.repo_path == [] then repo_root else req.repo_path

HasNodes : Parsed → Type 0
HasNodes p = p.nodes ≢ []

building-Gives :
    (p : Parsed) (stream : Stream SessionEvent) → HasNodes p → Gives HasNodes (building p stream)
unfolding building extracting creating
building-Gives p stream h =
    then_send-Gives HasNodes (emit stream (progress (bytes "building step graph") 40))
      (extracting p)
      (λ s.
        then_send-Gives HasNodes (emit s (progress (bytes "extracting glossary") 65)) (creating p)
          (λ s.
            then_send-Gives HasNodes (emit s (progress (bytes "creating session") 85))
              (λ s. (s, ok p)) (λ s a e. subst HasNodes (ap value e) h)))
  where
    value : Result Code Parsed → Parsed
    value (ok a) = a
    value (err c) = p

parse_source-Gives :
    (sources : Sources) (repo : Bytes) (req : OpenSessionRequest) (src : Bytes)
    (stream : Stream SessionEvent)
    → sources.read_file repo req.ref req.file_path ≡ some src
    → FindsNodes sources repo req
    → Gives HasNodes (parse_source sources repo req src stream)
unfolding parse_source HasNodes
parse_source-Gives sources repo req src stream is_read finds =
    then_with-Gives HasNodes stream (or_fail invalid_argument (sources.parse src req.file_path))
      (λ p. building (parsed_as repo src p) stream)
      (λ p q. building-Gives (parsed_as repo src p) stream (
        finds src p.1 p.0 is_read
          (or_fail-ok invalid_argument (sources.parse src req.file_path) q)))

parse_file-Gives :
    (sources : Sources) (repo : Bytes) (req : OpenSessionRequest) (stream : Stream SessionEvent)
    → FindsNodes sources repo req
    → Gives HasNodes (parse_file sources repo req stream)
unfolding parse_file reading parsing
parse_file-Gives sources repo req stream finds =
    then_send-Gives HasNodes (emit stream (progress (bytes "opening repository") 5))
      (reading sources repo req)
      (λ s.
        then_with-Gives HasNodes s (opened_repo sources repo)
          (λ _.
            then_with s (or_fail not_found (sources.read_file repo req.ref req.file_path))
              (parsing sources repo req s))
          (λ _ _.
            then_with-Gives HasNodes s
              (or_fail not_found (sources.read_file repo req.ref req.file_path))
              (parsing sources repo req s)
              (λ src is_read.
                then_send-Gives HasNodes (emit s (progress (bytes "parsing AST") 20))
                  (parse_source sources repo req src)
                  (λ s.
                    parse_source-Gives sources repo req src s
                      (or_fail-ok not_found (sources.read_file repo req.ref req.file_path) is_read)
                      finds))))

-- A graph of at least one node has its entry.
graph_of-IsOnGraph :
    (req : OpenSessionRequest) (p : Parsed) → HasNodes p → IsOnGraph (new_walker (graph_of req p))
unfolding HasNodes
graph_of-IsOnGraph req p h = go p.nodes h
  where
    go : (l : List Node) → l ≢ [] → IsOnGraph (new_walker (build l req.omit_raw_source req.symbol))
    go [] h = absurd (h refl)
    go (n ∷ l) h = build-IsOnGraph n l req.omit_raw_source req.symbol

register-IsHealthy :
    (sources : Sources) (now : ℕ) (id : Bytes) (st : Store) (req : OpenSessionRequest)
    (x : Stream SessionEvent × Result Code Parsed)
    → Gives HasNodes x
    → IsHealthy st
    → IsHealthy (register sources now id st req x).0
unfolding register
register-IsHealthy sources now id st req (stream, err c) g h = h
register-IsHealthy sources now id st req (stream, ok p) g h =
    set-IsHealthy st (file_session sources now id req p)
      (subst IsOnGraph (sym (walker-file_session sources now id req p))
        (graph_of-IsOnGraph req p (g p refl)))
      h

-- If the parser finds a node in the file that the request names, or refuses the file, `OpenSession`
-- keeps a healthy registry healthy, whether it succeeds or fails: the walker of the new session stands
-- on its graph.
pub open_session-IsHealthy :
    (sources : Sources) (repo_root : Bytes) (now : ℕ) (id : Bytes) (st : Store)
    (req : OpenSessionRequest) (stream : Stream SessionEvent)
    → FindsNodes sources (repo_of repo_root req) req
    → IsHealthy st
    → IsHealthy (open_session sources repo_root now id st req stream).0
unfolding open_session
open_session-IsHealthy sources repo_root now id st req stream finds h =
    elim (Bool-cases (req.file_path == [])) [
      | inl e ↦ rw e h
      | inr e ↦
          let repo = repo_of repo_root req in
          rw e (
            register-IsHealthy sources now id st req (parse_file sources repo req stream)
              (parse_file-Gives sources repo req stream finds) h)
    ]
