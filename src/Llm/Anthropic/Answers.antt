-- ===== src/Llm/Anthropic/Answers.antt =====
-- What the calls of the provider return.
use codewalker.Prelude.{Bytes, List, [], ◌∷◌, Result, ok, err, ◌≡◌, arith}
use codewalker.Proto.{StepSummary}
use codewalker.Server.Navigate.{SummaryRequest}
use codewalker.Llm.Summary.{parse_step_summary}
use codewalker.Llm.Summary.Filled.{IsFilled, parse_step_summary-IsFilled}
use codewalker.Llm.Anthropic.{Client, generate_step_summary, summary_answer}

summary_answer-IsFilled :
    (answer : Result Bytes (List Bytes)) (s : StepSummary)
    → summary_answer answer ≡ ok s
    → IsFilled s
unfolding summary_answer
summary_answer-IsFilled (err e) s run = cc
summary_answer-IsFilled (ok []) s run = cc
summary_answer-IsFilled (ok (text ∷ content)) s run =
    let same : s ≡ parse_step_summary text = ground arith in
    rw same (parse_step_summary-IsFilled text)

-- No field of a summary that the provider returns is empty, whatever the model answers: one that the
-- answer lacks, or leaves blank, is the dash.
pub generate_step_summary-IsFilled :
    (p : Client) (req : SummaryRequest) (s : StepSummary)
    → generate_step_summary p req ≡ ok s
    → IsFilled s
unfolding generate_step_summary
generate_step_summary-IsFilled p req s run = summary_answer-IsFilled _ s run
