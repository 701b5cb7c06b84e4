-- ===== src/Llm/Summary.antt =====
-- internal/llm/anthropic.go: `parseStepSummary`. The struct has the fields of the message
-- `StepSummary`.
pub mod Filled
pub mod RoundTrip
use codewalker.Prelude.{
  ℕ, Bytes, bytes, true, false, List, [], ◌∷◌, Option, none, some, ◌==◌, if◌then◌else◌,
}
use codewalker.Prelude.Strings.{split, cut, trim_space}
use codewalker.Proto.{StepSummary}

-- "—"
abbrev pub placeholder : Bytes
placeholder = 226 ∷ 128 ∷ 148 ∷ []

abbrev pub no_summary : StepSummary
no_summary = record {
  breaking = placeholder;
  risk = placeholder;
  what_changed = placeholder;
  side_effects = placeholder;
  tests = placeholder;
  reviewer_focus = placeholder;
  suggestion = placeholder;
  confidence = placeholder;
}

-- The switch over the keys; any other key is ignored.
unfoldable pub set_field : Bytes → Bytes → StepSummary → StepSummary
unfolding ◌==◌
set_field key value out =
    if key == bytes "Breaking"
    then record out { breaking = value }
    else if key == bytes "Risk"
    then record out { risk = value }
    else if key == bytes "WhatChanged"
    then record out { what_changed = value }
    else if key == bytes "SideEffects"
    then record out { side_effects = value }
    else if key == bytes "Tests"
    then record out { tests = value }
    else if key == bytes "ReviewerFocus"
    then record out { reviewer_focus = value }
    else if key == bytes "Suggestion"
    then record out { suggestion = value }
    else if key == bytes "Confidence"
    then record out { confidence = value }
    else out

unfoldable pub or_placeholder : Bytes → Bytes
unfolding ◌==◌
or_placeholder value = if value == [] then placeholder else value

-- The body of the loop, at a line without the white space around it.
unfoldable pub parse_line : Bytes → StepSummary → StepSummary
unfolding ◌==◌ cut trim_space set_field or_placeholder
parse_line line out = elim (line == []) [
  | true ↦ out
  | false ↦ elim (cut line 58) [
    | none ↦ out
    | some (key, value) ↦ set_field (trim_space key) (or_placeholder (trim_space value)) out
  ]
]

unfoldable pub parse_lines : List Bytes → StepSummary → StepSummary
unfolding trim_space parse_line
parse_lines [] out = out
parse_lines (line ∷ lines) out = parse_lines lines (parse_line (trim_space line) out)

unfoldable pub parse_step_summary : Bytes → StepSummary
unfolding split parse_lines
parse_step_summary raw = parse_lines (split raw 10) no_summary
