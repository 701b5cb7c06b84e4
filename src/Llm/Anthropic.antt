-- ===== src/Llm/Anthropic.antt =====
-- internal/llm/anthropic.go: the calls of `AnthropicProvider`. What the API answers is the parameter
-- `Client`; the decoding of JSON into candidates and the quotation of a term are parameters too.
pub mod Answers
use codewalker.Prelude.{
  ℕ, Bytes, bytes, Bool, true, false, List, [], ◌∷◌, ◌++◌, Option, none, some, Result, ok, err, ◌≡◌,
  refl, ◌∙◌, ap, arith,
}
use codewalker.Prelude.Strings.{trim_space, trim_prefix, trim_suffix}
use codewalker.Proto.{StepSummary}
use codewalker.Server.Navigate.{NarrateRequest, SummaryRequest}
use codewalker.Server.Assist.{RephraseRequest, ExpandTermRequest}
use codewalker.Server.OpenSession.{GlossaryRequest, Candidate}
use codewalker.Llm.Context.{StepContext, build_messages}
use codewalker.Llm.Prompts
use codewalker.Llm.Summary.{parse_step_summary}

pub record MessageParams : Type 0 where
  pub max_tokens : ℕ
  pub system : Bytes
  pub messages : List Bytes

-- An event of the stream when `Next` returned true: whether the context is done by then, and the
-- text of the event if it is a delta of text.
pub record StreamEvent : Type 0 where
  pub done : Bool
  pub delta : Option Bytes

-- `new` gives the texts of the content blocks, or the text of an error; `new_streaming` the events.
pub record Client : Type 0 where
  pub new : MessageParams → Result Bytes (List Bytes)
  pub new_streaming : MessageParams → List StreamEvent

-- The goroutine: the tokens that it puts on the channel before it closes it.
unfoldable pub pump : List StreamEvent → List Bytes
pump [] = []
pump (e ∷ events) = elim e.done [
  | true ↦ []
  | false ↦ elim e.delta [ none ↦ pump events | some text ↦ text ∷ pump events ]
]

-- The tokens of the channel that is returned.
unfoldable pub stream : Client → Bytes → List Bytes → List Bytes
unfolding pump
stream p system messages =
    pump (p.new_streaming (record { max_tokens = 2048; system = system; messages = messages }))

abbrev one_message : Bytes → List Bytes
one_message user = user ∷ []

unfoldable pub narrate : Client → NarrateRequest → List Bytes
unfolding stream build_messages
narrate p req =
    let (system, messages) = build_messages (record {
      language = req.language;
      symbol_signature = req.step_label;
      call_chain = req.call_chain;
      raw_source = req.code;
      effective_level = req.level;
    }) in
    stream p system messages

unfoldable pub rephrase : Client → RephraseRequest → List Bytes
unfolding stream Prompts.rephrase
rephrase p req =
    let r = req.narrate_request in
    let (system, user) = Prompts.rephrase r.code r.language req.mode r.level in
    stream p system (one_message user)

unfoldable pub expand_term : Client → (Bytes → Bytes) → ExpandTermRequest → List Bytes
unfolding stream Prompts.expand_term
expand_term p quote req =
    let (system, user) = Prompts.expand_term quote req.term req.context req.language req.level in
    stream p system (one_message user)

-- `err` carries the text of the error.
unfoldable pub summarize_external_call : Client → Bytes → Bytes → Bytes → Result Bytes Bytes
unfolding Prompts.external_call
summarize_external_call p pkg symbol language =
    let (system, user) = Prompts.external_call pkg symbol language in
    elim (p.new (record { max_tokens = 512; system = system; messages = one_message user })) [
      | err e ↦ err (bytes "anthropic: summarize external call: " ++ e)
      | ok [] ↦ err (bytes "anthropic: empty response")
      | ok (text ∷ content) ↦ ok text
    ]

abbrev fence : Bytes
fence = 96 ∷ 96 ∷ 96 ∷ []

-- The text without white space and a fence of Markdown around it.
unfoldable pub strip_fences : Bytes → Bytes
unfolding trim_space trim_prefix trim_suffix
strip_fences text =
    trim_suffix (trim_prefix (trim_prefix (trim_space text) (fence ++ bytes "json")) fence) fence

unfoldable pub decoded : (Bytes → Option (List Candidate)) → Bytes → List Candidate
unfolding strip_fences
decoded unmarshal text = elim (unmarshal (strip_fences text)) [
  | none ↦ []
  | some candidates ↦ candidates
]

unfoldable pub extract_glossary_terms :
    Client → (Bytes → Option (List Candidate)) → GlossaryRequest → Result Bytes (List Candidate)
unfolding Prompts.glossary_extract decoded
extract_glossary_terms p unmarshal req =
    let (system, user) = Prompts.glossary_extract req.code req.language req.level in
    elim (p.new (record { max_tokens = 1024; system = system; messages = one_message user })) [
      | err e ↦ err (bytes "anthropic: extract glossary terms: " ++ e)
      | ok [] ↦ ok []
      | ok (text ∷ content) ↦ ok (decoded unmarshal text)
    ]

-- The summary in the answer of the API.
unfoldable pub summary_answer : Result Bytes (List Bytes) → Result Bytes StepSummary
unfolding parse_step_summary
summary_answer (err e) = err (bytes "anthropic: generate step summary: " ++ e)
summary_answer (ok []) = err (bytes "anthropic: empty summary response")
summary_answer (ok (text ∷ content)) = ok (parse_step_summary text)

unfoldable pub generate_step_summary : Client → SummaryRequest → Result Bytes StepSummary
unfolding Prompts.step_summary summary_answer
generate_step_summary p req =
    let (system, user) =
      Prompts.step_summary req.language req.hunk_diff req.context_before req.context_after in
    summary_answer
      (p.new (record { max_tokens = 512; system = system; messages = one_message user }))
