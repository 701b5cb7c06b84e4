-- ===== src/Lib.antt =====
-- Codewalker: the server's core. A client opens a session on a review (a pull request, a commit or a
-- comparison of a forge) or on a source file, the server builds a graph of steps, one for each hunk
-- or for each unit of code, and the client then moves along the graph while the server streams the
-- narration of each step.
--
-- Parts, and the files that model them (paths are those of the repository):
--   Graph           internal/graph/walker.go: `Graph` and `Step`. `add` is Add, `step` is Step, `len`
--                   is Len. A pointer to a step is an index into a heap, which the map, the builder
--                   and the walker share. Graph/Shape: what an operation keeps of the graph.
--   Graph/Walker    the same file: `Walker`. `go_to`, `back`, `forward`, `follow_edge_label` return
--                   the walker that they leave behind and a step or an error; `make` is one move of a
--                   client. Graph/Walker/Laws and Graph/Walker/Moves: one operation, and sequences.
--   Graph/Builder   internal/graph/builder.go: `build` is Build, over the nodes of
--                   internal/parser/handler.go.
--   Graph/Cycle     internal/graph/cycle.go: `detect_cycles` is DetectCycles, `dfs` its closure. Its fuel
--                   is the depth of the recursion; one more than the number of steps is enough.
--   Forge           internal/forge: the types of a review. Forge/Host: host.go and registry.go.
--                   Forge/Orderers: orderer.go and orderers. Forge/Github: forges/github.go, with
--                   Url for ParseURL, Hunks for parseHunks, and Api for the requests.
--   Review          server/open_review_session.go: `build_hunk_graph` is buildHunkGraph, and
--                   `link_step` a round of its loop. Review/Chain: the loop builds a chain.
--                   Review/Traversal: the chain of a whole review. Review/Walk, Review/Ready: what
--                   `Forward` and `ReviewReady` make of it. Review/Ids: when IDs are distinct.
--   Session         internal/session/session.go and adaptation.go. Session/Store: store.go,
--                   with Refinement for its contract.
--   Git             internal/git: Manifest (manifest.go, with Scan for the scanner of lines, GoMod and
--                   Merge) and Client (client.go).
--   Resolver        internal/resolver/resolver.go and ecosystems. Resolver/Pinned: from a go.mod file
--                   to the links of a call.
--   Parser          internal/parser: Registry (registry.go and parser.go), Handlers, and languages in
--                   Golang, Python, Typescript and Php, over the trees of Tree. Labels is trimText.
--   Llm             internal/llm: Anthropic (anthropic.go), Summary (parseStepSummary), Context
--                   (context.go) and Prompts (prompts).
--   Server          server: Stream (the server's end of a stream), Source (sliceSource), Navigate,
--                   Sessions (session_mgmt.go), Assist (rephrase.go, expand_term.go), Forges
--                   (fetch_file_at_ref.go, list_pull_requests.go, list_file_orderers.go), OpenReview
--                   (open_review_session.go, the handler), OpenSession (open_session.go); System puts the
--                   parts together.
--   Process         config/config.go (Config), and cmd/codewalker/main.go with
--                   server/middleware/recovery.go and server/version.go (Life).
--   Proto           gen/codewalker/v1: the messages, as records.
--   Prelude         numbers, byte strings, maps as association lists, results, decimal numbers.
--   Tests           runs, and the theorems applied to concrete data.
--
-- How the parts interact: a handler of Server reads a session from Session/Store, moves the walker
-- that the session holds, and writes the session back; the graph of the session is that of its
-- walker, as both are one object. OpenReview asks a handler of Forge for the files, orders them, has
-- Review build the graph, and puts the new session into the store. OpenSession has a handler of
-- Parser make nodes of a file and Graph/Builder a graph of them. Resolver reads the manifest that Git
-- finds. The requests that Server makes of a model are those that Llm answers.
--
-- Conventions. A Go string is the list of its bytes, an `int` is a ℤ with native naturals inside,
-- whose sums of the numbers of a hunk wrap around at 64 bits, and
-- a conversion to uint32 or int32 is written out modulo 2^32. A call that panics gives none, which a
-- handler answers as the recovery middleware does. Every loop is structural recursion but
-- two: the printing of a number has fuel, its value and one more, which the round trip of `itoa` and
-- `atoi` shows to suffice, and the depth-first search for cycles has fuel, the depth of
-- its calls. A stream has a number of sends before it breaks and a number of looks before its context
-- ends: the environment chooses both. The `select` of a live narration is a list of arrivals, in any
-- order; a narration whose arrivals end while a channel is open still waits. A handler runs as one
-- step: the mutexes, and what other requests do to the registry meanwhile, are not modelled.
--
-- Arguments, not definitions: the HTTP client, JSON, base64 and query escapes (`Client`), the model
-- of the language (`Provider`, `Assistant`), the repository and the parser (`Sources`, which
-- Server/System fills with the models of Git, Parser and Llm), the files of a repository (`Root`),
-- go-git (`Repository`), the grammars of tree-sitter, the API of the model
-- (`Llm.Anthropic.Client`), the quotation by `%q`, the environment of the process and the readings of
-- durations, `url.Parse`, the clock, and the random ID of a session.
--
-- Not modelled: the texts of statuses and of untyped errors, logging, Unicode white space and letter
-- case (those of ASCII are), the grammars of tree-sitter, the wiring of gRPC in cmd, the
-- logging middleware, and test doubles.
pub mod Prelude
pub mod Proto
pub mod Graph
pub mod Forge
pub mod Review
pub mod Session
pub mod Git
pub mod Resolver
pub mod Parser
pub mod Llm
pub mod Server
pub mod Process
pub mod Tests
