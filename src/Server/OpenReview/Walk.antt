-- ===== src/Server/OpenReview/Walk.antt =====
-- server/open_review_session.go: the steps that a client is told, against those that it can walk.
use codewalker.Prelude.{
  ℕ, suc, Bytes, List, [], Option, none, some, get_elem?, get_elem?-lt, get_elem?-total, ◌≡◌, refl,
  sym, ap, ◌∙◌, arith,
}
use mathlib.Core.Option.{some-injective}
use codewalker.Graph.{Step}
use codewalker.Review.Chain.{chain, linked, length-chain, get_elem?-chain}
use codewalker.Review.Traversal.{review_steps, forwards}
use codewalker.Review.Ids.{places, DistinctPlaces, DistinctPlaces-Distinct}
use codewalker.Review.Ready.{proto_review_steps-review_steps}
use codewalker.Review.Walk.{forwards-review_steps}
use codewalker.Session.{new_session}
use codewalker.Server.OpenReview.{
  OpenReviewSessionRequest, Prepared, SessionEvent, progress, review_ready, ready, review_session,
  ready_event, new_session,
}

-- The steps that an event lists.
abbrev pub event_steps : SessionEvent → List Step
event_steps (progress stage percent) = []
event_steps (review_ready r) = r.steps
event_steps (ready r) = r.steps

linked_id : (s : Step) (o : Option Step) → (linked s o).id ≡ s.id
linked_id s none = refl
linked_id s (some t) = refl

-- The step of a chain is that of the list, but for its edge.
chain_step :
    (l : List Step) (i : ℕ) {t : Step}
    → get_elem? (chain l) i ≡ some t
    → (s : Step) × (get_elem? l i ≡ some s) × (s.id ≡ t.id)
chain_step l i {t} h =
    let (s, e) = get_elem?-total l i (omega (arith, get_elem?-lt (chain l) i h, length-chain l)) in
    let same : linked s (get_elem? l (suc i)) ≡ t =
      some-injective _ _ (sym (get_elem?-chain l i e) ∙ h) in
    (s, e, sym (linked_id s (get_elem? l (suc i))) ∙ ap (λ (x : Step). x.id) same)

-- If no two hunks of the review start at one line of one file, `i` calls of `Forward` in the new
-- session lead to the step that `ReviewReady` lists at place `i`.
pub forwards-ready_steps :
    (now : ℕ) (id : Bytes) (req : OpenReviewSessionRequest) (p : Prepared) (i : ℕ) {t : Step}
    → DistinctPlaces (places p.files)
    → get_elem? (event_steps (ready_event id req p)) i ≡ some t
    → (forwards i (review_session now id req p).walker).current ≡ t.id
unfolding review_session new_session ready_event
forwards-ready_steps now id req p i {t} places_differ listed =
    let omit = req.omit_raw_source in
    let l = review_steps p.files p.file_lines omit in
    let d = DistinctPlaces-Distinct p.files p.file_lines omit places_differ in
    let all = (proto_review_steps-review_steps p.files p.file_lines omit d).0 in
    let (s, e, same) = chain_step l i (ap (λ (x : List Step). get_elem? x i) (sym all) ∙ listed) in
    (forwards-review_steps p.files p.file_lines omit i d e).0 ∙ same
