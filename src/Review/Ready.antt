-- ===== src/Review/Ready.antt =====
-- server/open_review_session.go: the steps that `ReviewReady` lists.
use codewalker.Prelude.{
  ℕ, suc, Bytes, Bool, List, [], ◌∷◌, map, some, get_elem?, length, ◌≡◌, refl, ap, ◌∙◌,
}
use codewalker.Prelude.Assoc.{Assoc}
use codewalker.Forge.{ReviewFile}
use codewalker.Graph.{Graph, Step, step, len}
use codewalker.Review.{build_hunk_graph, proto_review_steps}
use codewalker.Review.Chain.{chain, linked, IsChain-step, Distinct}
use codewalker.Review.Traversal.{review_steps, build_hunk_graph-IsChain}

proto_review_steps-found :
    (g : Graph) (id : Bytes) (ids : List Bytes) {s : Step}
    → step g id ≡ some s
    → proto_review_steps g (id ∷ ids) ≡ s ∷ proto_review_steps g ids
unfolding proto_review_steps
proto_review_steps-found g id ids h = rw (h, proto_review_steps) refl

proto_review_steps-chain :
    (g : Graph) (l : List Step)
    → ((i : ℕ) (s : Step)
        → get_elem? l i ≡ some s
        → step g s.id ≡ some (linked s (get_elem? l (suc i))))
    → proto_review_steps g (map (λ (s : Step). s.id) l) ≡ chain l
unfolding chain
proto_review_steps-chain g [] h = unfold proto_review_steps in refl
proto_review_steps-chain g (s ∷ []) h =
    proto_review_steps-found g s.id [] (h 0 s refl) ∙ unfold proto_review_steps in refl
proto_review_steps-chain g (s ∷ t ∷ l) h =
    proto_review_steps-found g s.id (map (λ (s : Step). s.id) (t ∷ l)) (h 0 s refl)
    ∙ ap (◌∷◌ (linked s (some t))) (proto_review_steps-chain g (t ∷ l) (λ i. h (suc i)))

-- In a review whose hunks have distinct IDs, the steps that `ReviewReady` lists are the steps of all
-- hunks in the order of the files, each with the edge to the next one, and the graph has as many.
pub proto_review_steps-review_steps :
    (files : List ReviewFile) (file_lines : Assoc (List Bytes)) (omit_raw : Bool)
    → Distinct (review_steps files file_lines omit_raw)
    → let b = (build_hunk_graph files file_lines omit_raw).builder in
      (proto_review_steps b.graph b.ordered_step_ids
        ≡ chain (review_steps files file_lines omit_raw))
      × (len b.graph ≡ length (review_steps files file_lines omit_raw))
proto_review_steps-review_steps files file_lines omit_raw d =
    let l = review_steps files file_lines omit_raw in
    let b = (build_hunk_graph files file_lines omit_raw).builder in
    let built = build_hunk_graph-IsChain files file_lines omit_raw d in
    (
      ap (proto_review_steps b.graph) built.ordered
          ∙ proto_review_steps-chain b.graph l (λ i s e. IsChain-step l i built e),
      unfold len in built.size,
    )
