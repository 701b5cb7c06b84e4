-- ===== src/Tests/Forges.antt =====
-- The theorems of the forges and of the new review at concrete requests.
use codewalker.Prelude.{
  Bytes, bytes, false, List, [], ◌∷◌, ◌++◌, Option, none, some, ok, err, ◌≡◌, ◌↔◌, refl, arith, leb,
}
use codewalker.Prelude.Int.{pos}
use codewalker.Prelude.Strings.{split, itoa}
use codewalker.Proto.{ExperienceLevel}
use codewalker.Forge.{Hunk, ReviewFile, plain, ForgeContextKind}
use codewalker.Forge.Orderers.{order, entry_points_first, resolve_orderer, tier}
use codewalker.Forge.Orderers.Sorted.{IsPresented, order-IsPresented}
use codewalker.Forge.Github.Hunks.{parse_hunks, parse_hunk_header}
use codewalker.Forge.Github.Hunks.Header.{render_header, parse-render_header}
use codewalker.Forge.Github.Hunks.Lossless.{raw_diffs, unlines, from_header, raw_diffs-parse_hunks}
use codewalker.Forge.Github.Url.{parse_url, context_for}
use codewalker.Forge.Github.Url.RoundTrip.{parse_url-pull}
use codewalker.Forge.Github.Api.{GhFile, gh_files_to_review_files}
use codewalker.Forge.Github.Answers.{AreReviewsOf, gh_files_to_review_files-each}
use codewalker.Review.{build_hunk_graph, proto_review_steps}
use codewalker.Review.Traversal.{forwards}
use codewalker.Server.OpenReview.{Prepared, review_session, ready_event}
use codewalker.Server.OpenReview.Walk.{event_steps, forwards-ready_steps}
use codewalker.Tests.{last_of_two, two_files-DistinctPlaces}
use codewalker.Prelude.{get_elem?}
use codewalker.Session.Store.{new_store}
use codewalker.Server.Stream.{Stream}
use codewalker.Server.Forges.{ForgeHandler}
use codewalker.Server.OpenReview.{SessionEvent, OpenReviewSessionRequest, open_review_session}
use codewalker.Server.OpenReview.Laws.{IsSettled, open_review_session_cases}
use codewalker.Tests.{a_hunk, two_files}

tiers :
    (tier (bytes "src/cmd/Main.go") ≡ 10)
    × (tier (bytes "a_test.go") ≡ 80)
    × (tier (bytes "README.md") ≡ 70)
    × (tier (bytes "lib/util.go") ≡ 40)
unfolding tier
tiers = (refl, refl, refl, refl)

default_order : resolve_orderer [] ≡ some entry_points_first
unfolding resolve_orderer
default_order = refl

abbrev file_at : Bytes → ReviewFile
file_at path = record {
  path = path;
  language = [];
  change_kind = bytes "MODIFIED";
  old_path = [];
  hunks = [];
  lines_added = pos 0;
  lines_removed = pos 0;
}

abbrev three_files : List ReviewFile
three_files =
    file_at (bytes "a_test.go") ∷ file_at (bytes "a/model/b.go") ∷ file_at (bytes "x/cmd/a.go") ∷ []

order-IsPresented_example :
    IsPresented entry_points_first three_files (order entry_points_first three_files)
order-IsPresented_example = order-IsPresented entry_points_first three_files

-- The test comes last, and the entry point first.
three-ordered :
    order entry_points_first three_files
    ≡ file_at (bytes "x/cmd/a.go")
      ∷ file_at (bytes "a/model/b.go")
      ∷ file_at (bytes "a_test.go")
      ∷ []
unfolding order
three-ordered = refl

abbrev newline : Bytes
newline = b'\n' ∷ []

abbrev a_patch : Bytes
a_patch = bytes "@@ -1 +1,2 @@ f" ++ (newline ++ (bytes "-x" ++ (newline ++ bytes "+y")))

abbrev parsed : Hunk
parsed = record {
  old_start = pos 1;
  old_lines = pos 1;
  new_start = pos 1;
  new_lines = pos 2;
  raw_diff = a_patch ++ newline;
}

parses : parse_hunks a_patch ≡ ok (parsed ∷ [])
unfolding parse_hunks parse_hunk_header
parses = refl

raw_diffs-parse_hunks_example :
    raw_diffs (parsed ∷ []) ≡ unlines (from_header (split a_patch b'\n'))
raw_diffs-parse_hunks_example = raw_diffs-parse_hunks a_patch parses

parse-render_header_example :
    parse_hunk_header (render_header (a_hunk 3) (bytes " func f()"))
    ≡ ok (record (a_hunk 3) { raw_diff = [] })
parse-render_header_example =
    parse-render_header (a_hunk 3) (bytes " func f()") (omega arith) (omega arith) (omega arith)
      (omega arith)

abbrev pull_url : Bytes
pull_url =
    bytes "https://github.com/"
    ++ (bytes "o" ++ (b'/' ∷ (bytes "r" ++ (b'/' ∷ (bytes "pull" ++ (b'/' ∷ itoa (pos 7)))))))

parse_url-pull_example :
    parse_url pull_url
    ≡ some (record (context_for pull_url (bytes "o") (bytes "r")) {
      kind = ForgeContextKind.pr;
      pr_number = pos 7;
    })
parse_url-pull_example =
    parse_url-pull (bytes "o") (bytes "r") (pos 7) (refl, tt) (refl, tt) (omega arith)

abbrev an_answer : List GhFile
an_answer =
    record {
      filename = bytes "a.go";
      previous_filename = [];
      status = bytes "added";
      additions = pos 1;
      deletions = pos 1;
      patch = a_patch;
    }
    ∷ record {
      filename = bytes "b.go";
      previous_filename = [];
      status = bytes "removed";
      additions = pos 0;
      deletions = pos 9;
      patch = [];
    }
    ∷ []

abbrev as_review : List ReviewFile
as_review =
    record {
      path = bytes "a.go";
      language = [];
      change_kind = bytes "ADDED";
      old_path = [];
      hunks = parsed ∷ [];
      lines_added = pos 1;
      lines_removed = pos 1;
    }
    ∷ record {
      path = bytes "b.go";
      language = [];
      change_kind = bytes "DELETED";
      old_path = [];
      hunks = [];
      lines_added = pos 0;
      lines_removed = pos 9;
    }
    ∷ []

answers : gh_files_to_review_files an_answer ≡ ok as_review
unfolding gh_files_to_review_files parse_hunk_header
answers = refl

gh_files_to_review_files-each_example : AreReviewsOf an_answer as_review
gh_files_to_review_files-each_example = gh_files_to_review_files-each an_answer answers

abbrev a_request : OpenReviewSessionRequest
a_request = record {
  url = pull_url;
  forge_token = [];
  file_ordering = [];
  omit_raw_source = false;
  experience_level = ExperienceLevel.mid;
}

abbrev a_stream : Stream SessionEvent
a_stream = record { sent = []; room = 9; life = 9 }

-- `url.Parse` on the one URL that is asked for.
abbrev host_of : Bytes → Option Bytes
host_of url = some (bytes "github.com")

abbrev a_handler : ForgeHandler
a_handler = record {
  hosts = bytes "github.com" ∷ [];
  parse_url = parse_url;
  fetch_review = λ fc _. ok (record { context = fc; files = two_files });
  fetch_file = λ _ _ _ _. err plain;
  list_pull_requests = λ _ _ _. ok [];
}

open_review_session_cases_example :
    IsSettled host_of
      (a_handler ∷ [])
      a_request
      100
      (bytes "s1")
      new_store
      (open_review_session host_of (a_handler ∷ []) 100 (bytes "s1") new_store a_request a_stream)
open_review_session_cases_example =
    open_review_session_cases host_of (a_handler ∷ []) 100 (bytes "s1") new_store a_request a_stream

abbrev prepared : Prepared
prepared = record {
  context = context_for pull_url (bytes "o") (bytes "r");
  files = two_files;
  file_lines = [];
}

listed : get_elem? (event_steps (ready_event (bytes "s1") a_request prepared)) 2 ≡ some last_of_two
unfolding ready_event build_hunk_graph proto_review_steps codewalker.Graph.step_ref
    codewalker.Prelude.◌==◌
listed = refl

forwards-ready_steps_example :
    (forwards 2 (review_session 100 (bytes "s1") a_request prepared).walker).current
    ≡ last_of_two.id
forwards-ready_steps_example =
    forwards-ready_steps 100 (bytes "s1") a_request prepared 2 two_files-DistinctPlaces listed
