-- ===== src/Tests/Answers.antt =====
-- An answer of the model, and the theorems on summaries applied to it.
use codewalker.Prelude.{bytes, [], ◌∷◌, ok, ◌≡◌, refl}
use codewalker.Prelude.Strings.{has_byte, trim_space}
use codewalker.Proto.{StepSummary}
use codewalker.Server.Navigate.{SummaryRequest}
use codewalker.Llm.Summary.{placeholder, parse_step_summary}
use codewalker.Llm.Summary.Filled.{IsFilled}
use codewalker.Llm.Summary.RoundTrip.{HasValues, render, parse_step_summary-render}
use codewalker.Llm.Anthropic.{Client, generate_step_summary}
use codewalker.Llm.Anthropic.Answers.{generate_step_summary-IsFilled}

abbrev a_summary : StepSummary
a_summary = record {
  breaking = bytes "No";
  risk = bytes "Low: a: b";
  what_changed = bytes "x y";
  side_effects = placeholder;
  tests = bytes "Added";
  reviewer_focus = placeholder;
  suggestion = placeholder;
  confidence = bytes "High";
}

a_summary-HasValues : HasValues a_summary
unfolding has_byte trim_space
a_summary-HasValues = (
  (λ e. cc, refl, refl),
  (λ e. cc, refl, refl),
  (λ e. cc, refl, refl),
  (λ e. cc, refl, refl),
  (λ e. cc, refl, refl),
  (λ e. cc, refl, refl),
  (λ e. cc, refl, refl),
  (λ e. cc, refl, refl),
)

parse_step_summary-render_example : parse_step_summary (render a_summary) ≡ a_summary
parse_step_summary-render_example = parse_step_summary-render a_summary a_summary-HasValues

-- A model that answers with one line.
abbrev pub a_client : Client
a_client = record { new = λ params. ok (bytes "Risk:" ∷ []); new_streaming = λ params. [] }

abbrev a_request : SummaryRequest
a_request = record {
  language = bytes "Go";
  hunk_diff = [];
  context_before = [];
  context_after = [];
}

abbrev all_dashes : StepSummary
all_dashes = codewalker.Llm.Summary.no_summary

a_request-answered : generate_step_summary a_client a_request ≡ ok all_dashes
unfolding generate_step_summary
a_request-answered = refl

generate_step_summary-IsFilled_example : IsFilled all_dashes
generate_step_summary-IsFilled_example =
    generate_step_summary-IsFilled a_client a_request all_dashes a_request-answered
