-- ===== src/Llm/Summary/Filled.antt =====
-- Every field of a summary is populated, whatever the model answers.
use codewalker.Prelude.{
  Bytes, bytes, true, false, List, [], ◌∷◌, ◌==◌, ◌≢◌, if◌then◌else◌, Bool-cases, Option-cases, inl,
  inr, Bool,
}
use codewalker.Prelude.Strings.{split, cut, trim_space}
use codewalker.Proto.{StepSummary}
use codewalker.Llm.Summary.{
  no_summary, set_field, or_placeholder, parse_line, parse_lines, parse_step_summary,
}

-- No field is empty.
unfoldable pub IsFilled : StepSummary → Type 0
IsFilled s =
    (s.breaking ≢ [])
    × (s.risk ≢ [])
    × (s.what_changed ≢ [])
    × (s.side_effects ≢ [])
    × (s.tests ≢ [])
    × (s.reviewer_focus ≢ [])
    × (s.suggestion ≢ [])
    × (s.confidence ≢ [])

or_placeholder-full : (value : Bytes) → or_placeholder value ≢ []
unfolding or_placeholder ◌==◌
or_placeholder-full [] e = cc
or_placeholder-full (c ∷ value) e = cc

either : (b : Bool) (x y : StepSummary) → IsFilled x → IsFilled y → IsFilled (if b then x else y)
either true _ _ hx hy = hx
either false _ _ hx hy = hy

-- A value in any of the fields.
with_field :
    (value : Bytes) (out : StepSummary)
    → value ≢ []
    → IsFilled out
    → IsFilled (record out { breaking = value })
      × IsFilled (record out { risk = value })
      × IsFilled (record out { what_changed = value })
      × IsFilled (record out { side_effects = value })
      × IsFilled (record out { tests = value })
      × IsFilled (record out { reviewer_focus = value })
      × IsFilled (record out { suggestion = value })
      × IsFilled (record out { confidence = value })
unfolding IsFilled
with_field value out full (h0, h1, h2, h3, h4, h5, h6, h7) = (
  (full, h1, h2, h3, h4, h5, h6, h7),
  (h0, full, h2, h3, h4, h5, h6, h7),
  (h0, h1, full, h3, h4, h5, h6, h7),
  (h0, h1, h2, full, h4, h5, h6, h7),
  (h0, h1, h2, h3, full, h5, h6, h7),
  (h0, h1, h2, h3, h4, full, h6, h7),
  (h0, h1, h2, h3, h4, h5, full, h7),
  (h0, h1, h2, h3, h4, h5, h6, full),
)

set_field-IsFilled :
    (key value : Bytes) (out : StepSummary)
    → value ≢ []
    → IsFilled out
    → IsFilled (set_field key value out)
unfolding set_field
set_field-IsFilled key value out full h =
    let (p0, p1, p2, p3, p4, p5, p6, p7) = with_field value out full h in
    either (key == bytes "Breaking") _ _ p0 (
      either (key == bytes "Risk") _ _ p1 (
        either (key == bytes "WhatChanged") _ _ p2 (
          either (key == bytes "SideEffects") _ _ p3 (
            either (key == bytes "Tests") _ _ p4 (
              either (key == bytes "ReviewerFocus") _ _ p5 (
                either (key == bytes "Suggestion") _ _ p6
                  (either (key == bytes "Confidence") _ _ p7 (h))))))))

parse_line-IsFilled :
    (line : Bytes) (out : StepSummary) → IsFilled out → IsFilled (parse_line line out)
unfolding parse_line
parse_line-IsFilled line out h = elim (Bool-cases (line == [])) [
  | inl e ↦ rw (e, parse_line) h
  | inr e ↦ elim (Option-cases (cut line 58)) [
    | inl none_found ↦ rw (e, none_found, parse_line) h
    | inr ((key, value), found) ↦
        rw (e, found, parse_line)
          (set_field-IsFilled (trim_space key) (or_placeholder (trim_space value)) out
            (or_placeholder-full (trim_space value)) h)
  ]
]

parse_lines-IsFilled :
    (lines : List Bytes) (out : StepSummary) → IsFilled out → IsFilled (parse_lines lines out)
unfolding parse_lines
parse_lines-IsFilled [] out h = h
parse_lines-IsFilled (line ∷ lines) out h =
    parse_lines-IsFilled lines (parse_line (trim_space line) out)
      (parse_line-IsFilled (trim_space line) out h)

no_summary-IsFilled : IsFilled no_summary
unfolding IsFilled
no_summary-IsFilled = (λ e. cc, λ e. cc, λ e. cc, λ e. cc, λ e. cc, λ e. cc, λ e. cc, λ e. cc)

-- Whatever the model answers, no field of the summary is empty: one that the answer lacks, or leaves
-- blank, is the dash.
pub parse_step_summary-IsFilled : (raw : Bytes) → IsFilled (parse_step_summary raw)
unfolding parse_step_summary
parse_step_summary-IsFilled raw = parse_lines-IsFilled (split raw 10) no_summary no_summary-IsFilled
