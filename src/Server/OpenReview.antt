-- ===== src/Server/OpenReview.antt =====
-- server/open_review_session.go: `OpenReviewSession`. `url.Parse`, the random session ID and the
-- clock are arguments; the status messages and the log are not modelled.
pub mod Gives
pub mod Laws
pub mod Walk
use codewalker.Prelude.{
  ℕ, Bytes, bytes, Bool, true, false, List, [], ◌∷◌, ◌++◌, map, Option, none, some, Result, ok, err,
  ◌==◌, length, ◌%◌, ◌^◌, if◌then◌else◌,
}
use codewalker.Prelude.Int.{ℤ, pos, to_uint32}
use codewalker.Prelude.Assoc.{Assoc, lookup, put}
use codewalker.Prelude.Strings.{contains, split}
use codewalker.Proto.{GlossaryTerm, SessionKind, ExperienceLevel}
use codewalker.Graph.{Step, len}
use codewalker.Forge.{ForgeContext, ForgeContextKind, ReviewFile, ReviewPayload}
use codewalker.Forge.Host.{normalize_host}
use codewalker.Forge.Orderers.{Orderer, order, resolve_orderer}
use codewalker.Review.{HunkGraph, build_hunk_graph, proto_review_steps}
use codewalker.Session.{Session, new_session, effective_level}
use codewalker.Session.Store
use codewalker.Session.Store.{Store}
use codewalker.Server.Stream.{Code, Stream, send, check_context, then_send, invalid_argument}
use codewalker.Server.Forges.{ForgeHandler, resolve_handler, to_status}

pub data ChangeKind : Type 0 where
  added deleted renamed modified : ChangeKind

unfoldable pub change_kind_to_proto : Bytes → ChangeKind
unfolding ◌==◌
change_kind_to_proto s =
    if s == bytes "ADDED"
    then added
    else if s == bytes "DELETED"
    then deleted
    else if s == bytes "RENAMED"
    then renamed
    else modified

pub record ProtoReviewFile : Type 0 where
  pub file_path : Bytes
  pub language : Bytes
  pub change : ChangeKind
  pub hunks_total : ℕ
  pub lines_added : ℕ
  pub lines_removed : ℕ
  pub entry_step_id : Bytes

-- The proto's context has the fields of a `ForgeContext`, with an int32 for the number, and the
-- files. The two enumerations of kinds have the same members.
pub record ProtoForgeContext : Type 0 where
  pub kind : ForgeContextKind
  pub forge : Bytes
  pub owner : Bytes
  pub repo : Bytes
  pub base_ref : Bytes
  pub head_ref : Bytes
  pub pr_number : ℕ
  pub pr_title : Bytes
  pub pr_description : Bytes
  pub pr_author : Bytes
  pub url : Bytes
  pub files : List ProtoReviewFile

-- `fileEntryStepIDs[path]`, the empty ID for a path that it lacks
entry_of : Assoc Bytes → Bytes → Bytes
unfolding lookup
entry_of ids path = elim (lookup path ids) [ none ↦ [] | some id ↦ id ]

unfoldable pub proto_file : Assoc Bytes → ReviewFile → ProtoReviewFile
unfolding entry_of change_kind_to_proto
proto_file ids f = record {
  file_path = f.path;
  language = f.language;
  change = change_kind_to_proto f.change_kind;
  hunks_total = length f.hunks % 2 ^ 32;
  lines_added = to_uint32 f.lines_added;
  lines_removed = to_uint32 f.lines_removed;
  entry_step_id = entry_of ids f.path;
}

unfoldable pub to_proto_forge_context :
    ForgeContext → List ReviewFile → Assoc Bytes → ProtoForgeContext
unfolding proto_file
to_proto_forge_context fc files ids = record {
  kind = fc.kind;
  forge = fc.forge;
  owner = fc.owner;
  repo = fc.repo;
  base_ref = fc.base_ref;
  head_ref = fc.head_ref;
  pr_number = to_uint32 fc.pr_number;
  pr_title = fc.pr_title;
  pr_description = fc.pr_description;
  pr_author = fc.pr_author;
  url = fc.url;
  files = map (proto_file ids) files;
}

pub record ReviewReady : Type 0 where
  pub session_id : Bytes
  pub forge_context : ProtoForgeContext
  pub steps : List Step
  pub total_steps : ℕ
  pub entry_step_id : Bytes
  pub effective_level : ℕ

pub record SessionReady : Type 0 where
  pub session_id : Bytes
  pub steps : List Step
  pub glossary : List GlossaryTerm
  pub language : Bytes
  pub total_steps : ℕ
  pub entry_step_id : Bytes

pub data SessionEvent : Type 0 where
  progress : Bytes → ℕ → SessionEvent
  review_ready : ReviewReady → SessionEvent
  ready : SessionReady → SessionEvent

-- server/open_session.go: `send`, which looks at the context first
unfoldable pub emit :
    Stream SessionEvent → SessionEvent → Stream SessionEvent × Result Code (Unit {0})
unfolding send check_context
emit stream e = then_send (check_context stream) (λ s. send s e)

pub record OpenReviewSessionRequest : Type 0 where
  pub url : Bytes
  pub forge_token : Bytes
  pub file_ordering : Bytes
  pub omit_raw_source : Bool
  pub experience_level : ExperienceLevel

-- The host of `url.Parse`, of a URL with its scheme; the empty host is an error too.
nonempty : Bytes → Option Bytes
nonempty [] = none
nonempty (c ∷ s) = some (c ∷ s)

unfoldable pub extract_url_host : (Bytes → Option Bytes) → Bytes → Option Bytes
unfolding contains nonempty
extract_url_host url_host raw =
    elim (url_host (if contains raw (bytes "://") then raw else bytes "https://" ++ raw)) [
      | none ↦ none
      | some host ↦ nonempty host
    ]

-- What the URL names: the handler of its host, and the context.
or_invalid {ℓ} : {A : Type ℓ} → Option A → Result Code A
or_invalid none = err invalid_argument
or_invalid (some a) = ok a

-- A call that does not touch the stream, and what follows if it succeeded.
abbrev pub then_with {ℓ κ} :
    {A : Type ℓ} {B : Type κ}
    → Stream SessionEvent
    → Result Code A
    → (A → Stream SessionEvent × Result Code B)
    → Stream SessionEvent × Result Code B
then_with stream (ok a) k = k a
then_with stream (err c) k = (stream, err c)

-- The lines of a file: best effort.
add_lines : Bytes → Result Code Bytes → Assoc (List Bytes) → Assoc (List Bytes)
unfolding split put
add_lines path (ok content) m = put path (split content b'\n') m
add_lines path (err e) m = m

fetch_lines :
    ForgeHandler → ForgeContext → Bytes → Assoc (List Bytes) → List ReviewFile → Assoc (List Bytes)
unfolding add_lines to_status ◌==◌
fetch_lines h fc token m [] = m
fetch_lines h fc token m (f ∷ files) =
    fetch_lines h fc token
      (if f.change_kind == bytes "DELETED"
        then m
        else add_lines f.path (to_status (h.fetch_file fc f.path fc.head_ref token)) m)
      files

pub file_lines_of : ForgeHandler → ForgeContext → Bytes → List ReviewFile → Assoc (List Bytes)
unfolding fetch_lines ◌==◌
file_lines_of h fc token files = if fc.head_ref == [] then [] else fetch_lines h fc token [] files

-- What is known when the session is created.
pub record Prepared : Type 0 where
  pub context : ForgeContext
  pub files : List ReviewFile
  pub file_lines : Assoc (List Bytes)

-- The steps 2 and 3, and the progress of step 4.
prepare :
    OpenReviewSessionRequest
    → ForgeHandler
    → ForgeContext
    → Stream SessionEvent
    → Stream SessionEvent × Result Code Prepared
unfolding emit to_status or_invalid resolve_orderer order file_lines_of
prepare req h fc stream = then_send (emit stream (progress (bytes "fetching diff") 20)) (λ stream.
    then_with stream (to_status (h.fetch_review fc req.forge_token)) (λ payload.
      then_with stream (or_invalid (resolve_orderer req.file_ordering)) (λ orderer.
        let files = order orderer payload.files in
        let lines = file_lines_of h payload.context req.forge_token files in
        then_send (emit stream (progress (bytes "building step graph") 50)) (λ stream.
          then_send (emit stream (progress (bytes "creating session") 90)) (λ stream. (
            stream,
            ok (record { context = payload.context; files = files; file_lines = lines }),
          ))))))

unfoldable pub review_session : ℕ → Bytes → OpenReviewSessionRequest → Prepared → Session
unfolding new_session effective_level build_hunk_graph
review_session now id req p =
    record (new_session now id
      (build_hunk_graph p.files p.file_lines req.omit_raw_source).builder.graph
      (effective_level req.experience_level) (bytes "diff") req.omit_raw_source [] [] [] []) {
        kind = SessionKind.review;
      }

unfoldable pub ready_event : Bytes → OpenReviewSessionRequest → Prepared → SessionEvent
unfolding build_hunk_graph proto_review_steps to_proto_forge_context effective_level len
ready_event id req p =
    let h = build_hunk_graph p.files p.file_lines req.omit_raw_source in
    review_ready (record {
      session_id = id;
      forge_context = to_proto_forge_context p.context p.files h.file_entry_step_ids;
      steps = proto_review_steps h.builder.graph h.builder.ordered_step_ids;
      total_steps = len h.builder.graph % 2 ^ 32;
      entry_step_id = h.builder.graph.entry_id;
      effective_level = effective_level req.experience_level;
    })

abbrev pub Opened : Type 0
Opened = Store × (Stream SessionEvent × Result Code (Unit {0}))

unfoldable pub finish :
    ℕ
    → Bytes
    → Store
    → OpenReviewSessionRequest
    → Stream SessionEvent × Result Code Prepared
    → Opened
unfolding emit review_session ready_event Store.set
finish now id st req (stream, err c) = (st, (stream, err c))
finish now id st req (stream, ok p) =
    (Store.set st (review_session now id req p), emit stream (ready_event id req p))

-- The steps 1 to 4 up to the new session.
unfoldable pub open_review :
    (Bytes → Option Bytes)
    → List ForgeHandler
    → OpenReviewSessionRequest
    → Stream SessionEvent
    → Stream SessionEvent × Result Code Prepared
unfolding emit extract_url_host or_invalid prepare resolve_handler normalize_host
open_review url_host handlers req stream =
    then_send (emit stream (progress (bytes "parsing URL") 5)) (λ stream.
      then_with stream (or_invalid (extract_url_host url_host req.url)) (λ host.
        then_with stream (or_invalid (resolve_handler handlers (normalize_host host))) (λ h.
          then_with stream (or_invalid (h.parse_url req.url)) (λ fc. prepare req h fc stream))))

unfoldable pub open_review_session :
    (Bytes → Option Bytes)
    → List ForgeHandler
    → ℕ
    → Bytes
    → Store
    → OpenReviewSessionRequest
    → Stream SessionEvent
    → Opened
unfolding open_review finish ◌==◌
open_review_session url_host handlers now id st req stream =
    if req.url == []
    then (st, (stream, err invalid_argument))
    else finish now id st req (open_review url_host handlers req stream)
