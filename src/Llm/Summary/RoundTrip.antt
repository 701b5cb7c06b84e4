-- ===== src/Llm/Summary/RoundTrip.antt =====
-- A summary that is printed as the prompt asks for it is parsed into itself.
use codewalker.Prelude.{ℕ, Bytes, bytes, false, [], ◌∷◌, ◌++◌, some, ◌==◌, ◌≡◌, ◌≢◌, refl, ap, ◌∙◌}
use codewalker.Prelude.Strings.{
  split, cut, trim_space, has_byte, is_space, split-part, has_byte-append, trim_space-behind,
  trim_space-space,
}
use codewalker.Proto.{StepSummary}
use codewalker.Llm.Summary.{
  no_summary, set_field, or_placeholder, parse_line, parse_lines, parse_step_summary,
}

-- A value that a line can hold: not empty, on one line, and without white space around it.
abbrev pub IsValue : Bytes → Type 0
IsValue v = (v ≢ []) × (has_byte v 10 ≡ false) × (trim_space v ≡ v)

abbrev pub line : Bytes → Bytes → Bytes → Bytes
line label value rest = (label ++ value) ++ (10 ∷ rest)

-- The eight lines of the format in `prompts.StepSummary`.
abbrev pub render : StepSummary → Bytes
render s = line (bytes "Breaking: ") s.breaking (
    line (bytes "Risk: ") s.risk (
      line (bytes "WhatChanged: ") s.what_changed (
        line (bytes "SideEffects: ") s.side_effects (
          line (bytes "Tests: ") s.tests (
            line (bytes "ReviewerFocus: ") s.reviewer_focus (
              line (bytes "Suggestion: ") s.suggestion
                (line (bytes "Confidence: ") s.confidence [])))))))

abbrev pub HasValues : StepSummary → Type 0
HasValues s =
    IsValue s.breaking
    × IsValue s.risk
    × IsValue s.what_changed
    × IsValue s.side_effects
    × IsValue s.tests
    × IsValue s.reviewer_focus
    × IsValue s.suggestion
    × IsValue s.confidence

or_placeholder-full : (v : Bytes) → v ≢ [] → or_placeholder v ≡ v
unfolding or_placeholder ◌==◌
or_placeholder-full [] full = absurd (full refl)
or_placeholder-full (c ∷ v) full = refl

parse_line-cut :
    (c : ℕ) (text key v : Bytes) (out : StepSummary)
    → cut (c ∷ text) 58 ≡ some (key, 32 ∷ v)
    → v ≢ []
    → trim_space v ≡ v
    → parse_line (c ∷ text) out ≡ set_field (trim_space key) v out
unfolding parse_line ◌==◌
parse_line-cut c text key v out parts full trimmed =
    rw (parts, parse_line)
      (ap (λ t. set_field (trim_space key) (or_placeholder t) out) (trim_space-space v ∙ trimmed)
        ∙ ap (λ t. set_field (trim_space key) t out) (or_placeholder-full v full))

-- A line of the format, at a label that starts with no white space and is cut into its key.
parse_line-value :
    (c : ℕ) (label key v : Bytes) (out : StepSummary)
    → is_space c ≡ false
    → cut (c ∷ label ++ v) 58 ≡ some (key, 32 ∷ v)
    → IsValue v
    → parse_line (trim_space (c ∷ label ++ v)) out ≡ set_field (trim_space key) v out
parse_line-value c label key [] out starts parts (full, _, _) = absurd (full refl)
parse_line-value c label key (d ∷ v) out starts parts (full, _, trimmed) =
    ap (λ l. parse_line l out) (trim_space-behind c d label v starts trimmed)
    ∙ parse_line-cut c (label ++ (d ∷ v)) key (d ∷ v) out parts full trimmed

-- The line and what follows it.
parse_lines-line :
    (c : ℕ) (label key v rest : Bytes) (out : StepSummary)
    → is_space c ≡ false
    → has_byte (c ∷ label) 10 ≡ false
    → cut (c ∷ label ++ v) 58 ≡ some (key, 32 ∷ v)
    → IsValue v
    → parse_lines (split (line (c ∷ label) v rest) 10) out
      ≡ parse_lines (split rest 10) (set_field (trim_space key) v out)
unfolding parse_lines
parse_lines-line c label key v rest out starts label_fits parts (full, fits, trimmed) =
    ap (λ ls. parse_lines ls out)
      (split-part (c ∷ label ++ v) rest 10 (has_byte-append (c ∷ label) v 10 label_fits fits))
    ∙ ap (parse_lines (split rest 10))
        (parse_line-value c label key v out starts parts (full, fits, trimmed))

-- The eight lines that the prompt asks for, each with a value on one line, are parsed into those
-- values.
pub parse_step_summary-render : (s : StepSummary) → HasValues s → parse_step_summary (render s) ≡ s
unfolding parse_step_summary parse_lines parse_line set_field trim_space split cut has_byte is_space
    ◌==◌
parse_step_summary-render s (h0, h1, h2, h3, h4, h5, h6, h7) =
    let rest7 : Bytes = [] in
    let rest6 = line (bytes "Confidence: ") s.confidence rest7 in
    let rest5 = line (bytes "Suggestion: ") s.suggestion rest6 in
    let rest4 = line (bytes "ReviewerFocus: ") s.reviewer_focus rest5 in
    let rest3 = line (bytes "Tests: ") s.tests rest4 in
    let rest2 = line (bytes "SideEffects: ") s.side_effects rest3 in
    let rest1 = line (bytes "WhatChanged: ") s.what_changed rest2 in
    let rest0 = line (bytes "Risk: ") s.risk rest1 in
    let out0 = no_summary in
    let out1 = set_field (trim_space (bytes "Breaking")) s.breaking out0 in
    let out2 = set_field (trim_space (bytes "Risk")) s.risk out1 in
    let out3 = set_field (trim_space (bytes "WhatChanged")) s.what_changed out2 in
    let out4 = set_field (trim_space (bytes "SideEffects")) s.side_effects out3 in
    let out5 = set_field (trim_space (bytes "Tests")) s.tests out4 in
    let out6 = set_field (trim_space (bytes "ReviewerFocus")) s.reviewer_focus out5 in
    let out7 = set_field (trim_space (bytes "Suggestion")) s.suggestion out6 in
    parse_lines-line 66 (bytes "reaking: ") (bytes "Breaking") s.breaking rest0 out0 refl refl refl
      h0
    ∙ parse_lines-line 82 (bytes "isk: ") (bytes "Risk") s.risk rest1 out1 refl refl refl h1
    ∙ parse_lines-line 87 (bytes "hatChanged: ") (bytes "WhatChanged") s.what_changed rest2 out2
        refl refl refl h2
    ∙ parse_lines-line 83 (bytes "ideEffects: ") (bytes "SideEffects") s.side_effects rest3 out3
        refl refl refl h3
    ∙ parse_lines-line 84 (bytes "ests: ") (bytes "Tests") s.tests rest4 out4 refl refl refl h4
    ∙ parse_lines-line 82 (bytes "eviewerFocus: ") (bytes "ReviewerFocus") s.reviewer_focus rest5
        out5 refl refl refl h5
    ∙ parse_lines-line 83 (bytes "uggestion: ") (bytes "Suggestion") s.suggestion rest6 out6 refl
        refl refl h6
    ∙ parse_lines-line 67 (bytes "onfidence: ") (bytes "Confidence") s.confidence rest7 out7 refl
        refl refl h7
