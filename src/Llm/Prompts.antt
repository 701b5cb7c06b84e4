-- ===== src/Llm/Prompts.antt =====
-- internal/llm/prompts: the system and user prompts of the calls. The quotation of a
-- term by `%q` is the parameter `quote`.
use codewalker.Prelude.{[], ◌∷◌, Bool, ℕ, Bytes, bytes, ◌++◌, ◌==◌, if◌then◌else◌, List, ◌∷◌}
use codewalker.Prelude.Int.{pos}
use codewalker.Prelude.Strings.{join, has_prefix, trim_space, itoa}
use codewalker.Llm.Context.{arrow, newline, en_dash, em_dash}

unfoldable pub external_call : Bytes → Bytes → Bytes → Bytes × Bytes
external_call pkg symbol language = (
  bytes "You are a concise technical reference for "
      ++ (language
          ++ (bytes " libraries."
              ++ (newline
                  ++ (bytes "Summarise what the given function does in 2"
                      ++ (en_dash
                          ++ (bytes "3 sentences."
                              ++ (newline
                                  ++ (bytes
                                        "Focus on: what it does, what it returns, and any important side effects."
                                      ++ (newline
                                          ++ (bytes
                                              "Do not mention version numbers or make claims about URL locations.")))))))))),
  bytes "Summarise " ++ (pkg ++ (bytes "." ++ symbol)),
)

unfoldable pub glossary_extract : Bytes → Bytes → ℕ → Bytes × Bytes
unfolding itoa
glossary_extract code language level = (
  bytes "You are a technical glossary builder for "
      ++ (language
          ++ (bytes " code aimed at a developer at level "
              ++ (itoa (pos level)
                  ++ (bytes "/10."
                      ++ (newline
                          ++ (newline
                              ++ (bytes
                                    "Identify terms in the code that a developer at this level might not know."
                                  ++ (newline
                                      ++ (bytes
                                            "For each term, output a JSON array with objects containing:"
                                          ++ (newline
                                              ++ (bytes "- \"term\": the exact term as it appears"
                                                  ++ (newline
                                                      ++ (bytes
                                                            "- \"kind\": one of \"LANGUAGE\" | \"PATTERN\" | \"DOMAIN\" | \"LIBRARY\""
                                                          ++ (newline
                                                            ++ (bytes
                                                            "- \"definition\": a one-sentence plain-English definition"
                                                            ++ (newline
                                                            ++ (newline
                                                            ++ (bytes
                                                            "Output only the JSON array. No prose, no markdown fences.")))))))))))))))))),
  bytes "Extract glossary terms from this "
      ++ (language ++ (bytes " code:" ++ (newline ++ (newline ++ (code))))),
)

unfoldable pub expand_term : (Bytes → Bytes) → Bytes → Bytes → Bytes → ℕ → Bytes × Bytes
unfolding itoa
expand_term quote term context_code language level = (
  bytes "You are a technical educator explaining "
      ++ (language
          ++ (bytes " concepts to a developer at level "
              ++ (itoa (pos level)
                  ++ (bytes "/10."
                      ++ (newline
                          ++ (bytes
                                "Provide a thorough but accessible explanation of the requested term."
                              ++ (newline
                                  ++ (bytes "Format: 2"
                                      ++ (en_dash
                                          ++ (bytes
                                              "3 prose paragraphs. No bullet lists. No markdown headers.")))))))))),
  bytes "Explain the term "
      ++ (quote term
          ++ (bytes " as it appears in this "
              ++ (language ++ (bytes " code:" ++ (newline ++ (newline ++ (context_code))))))),
)

unfoldable pub rephrase_instruction : Bytes → Bytes
unfolding ◌==◌
rephrase_instruction mode =
    if mode == bytes "SIMPLER"
    then bytes
        "Simplify the explanation significantly. Use plain language, relatable analogies, and shorter sentences. Avoid technical terms unless you immediately explain them."
    else if mode == bytes "DEEPER"
    then bytes
        "Go deeper. Explain the underlying mechanics, potential edge cases, performance characteristics, and why this approach was likely chosen over alternatives."
    else if mode == bytes "ANALOGY"
    then bytes
        "Explain this entire step using a real-world analogy that does not involve code. The analogy should map precisely to what the code is doing."
    else if mode == bytes "TLDR"
    then bytes "Give a one or two sentence TL;DR. Be direct and extremely concise."
    else bytes "Rephrase the explanation clearly and concisely."

unfoldable pub rephrase : Bytes → Bytes → Bytes → ℕ → Bytes × Bytes
unfolding itoa rephrase_instruction
rephrase code language mode level = (
  bytes "You are a patient, expert code guide explaining "
      ++ (language
          ++ (bytes " code to a developer at experience level "
              ++ (itoa (pos level)
                  ++ (bytes "/10."
                      ++ (newline
                          ++ (bytes
                              "Format: Prose paragraphs only. No bullet lists. No markdown headers.")))))),
  bytes "Code:"
      ++ (newline
          ++ (code
              ++ (newline ++ (newline ++ (bytes "Instruction: " ++ (rephrase_instruction mode)))))),
)

unfoldable pub step_summary : Bytes → Bytes → Bytes → Bytes → Bytes × Bytes
step_summary language hunk_diff context_before context_after = (
  bytes "You are reviewing a single "
      ++ (language
          ++ (bytes " diff hunk for a code reviewer who needs fast triage."
              ++ (newline
                  ++ (bytes
                        "Produce a structured summary in exactly the following format. Each line must be present."
                      ++ (newline
                          ++ (bytes "If a field is not applicable, write \""
                              ++ (em_dash
                                  ++ (bytes "\" rather than omitting the line."
                                      ++ (newline
                                          ++ (newline
                                              ++ (bytes "Breaking: Yes|No"
                                                  ++ (newline
                                                      ++ (bytes "Risk: Low|Medium|High "
                                                          ++ (em_dash
                                                            ++ (bytes " brief reason"
                                                            ++ (newline
                                                            ++ (bytes
                                                            "WhatChanged: one-line summary"
                                                            ++ (newline
                                                            ++ (bytes
                                                            "SideEffects: what else this change affects, or "
                                                            ++ (em_dash
                                                            ++ (newline
                                                            ++ (bytes
                                                            "Tests: Added|Modified|Missing"
                                                            ++ (newline
                                                            ++ (bytes
                                                            "ReviewerFocus: what to pay particular attention to, or "
                                                            ++ (em_dash
                                                            ++ (newline
                                                            ++ (bytes
                                                            "Suggestion: any concern worth raising, or "
                                                            ++ (em_dash
                                                            ++ (newline
                                                            ++ (bytes "Confidence: Low|Medium|High "
                                                            ++ (em_dash
                                                            ++ (bytes " reason if Low, otherwise "
                                                            ++ (em_dash))))))))))))))))))))))))))))))))),
  bytes "Hunk:"
      ++ (newline
          ++ (hunk_diff
              ++ (newline
                  ++ (newline
                      ++ (bytes "Surrounding context:"
                          ++ (newline ++ (context_before ++ (newline ++ (context_after))))))))),
)

-- The breadcrumb and the variables, where there are any; `caption` stands before them.
unfoldable pub listed : Bytes → Bytes → List Bytes → Bytes
unfolding join
listed caption separator [] = []
listed caption separator (item ∷ items) = caption ++ (join (item ∷ items) separator ++ newline)

unfoldable pub is_diff : Bytes → Bool
unfolding trim_space has_prefix
is_diff code = has_prefix (trim_space code) (bytes "@@")

-- `Narrate` of this package, which `BuildMessages` has replaced.
unfoldable pub narrate : Bytes → Bytes → Bytes → Bytes → List Bytes → List Bytes → ℕ → Bytes × Bytes
unfolding itoa listed is_diff
narrate code language step_label step_kind call_chain variables level =
    let ctx =
      listed (bytes "Current location: ") (bytes " " ++ (arrow ++ bytes " ")) call_chain
      ++ listed (bytes "In-scope variables: ") (bytes ", ") variables in
    if is_diff code
    then (
      bytes
            "You are a patient, expert code reviewer explaining a diff to a developer at experience level "
          ++ (itoa (pos level)
              ++ (bytes "/10."
                  ++ (newline
                      ++ (newline
                          ++ (bytes "Narration style guidelines:"
                              ++ (newline
                                  ++ (bytes "- Level 1"
                                      ++ (en_dash
                                          ++ (bytes
                                                "3 (junior): Use simple analogies. Avoid jargon. Explain every construct and why it changed."
                                              ++ (newline
                                                  ++ (bytes "- Level 4"
                                                      ++ (en_dash
                                                          ++ (bytes
                                                            "6 (mid): Assume familiarity with basic constructs. Focus on intent and patterns behind the change."
                                                            ++ (newline
                                                            ++ (bytes "- Level 7"
                                                            ++ (en_dash
                                                            ++ (bytes
                                                            "10 (senior): Be concise. Focus on design decisions, trade-offs, and non-obvious side effects."
                                                            ++ (newline
                                                            ++ (newline
                                                            ++ (bytes
                                                            "Format: Prose paragraphs only. No bullet lists. No markdown headers."
                                                            ++ (newline
                                                            ++ (bytes "Length: 2"
                                                            ++ (en_dash
                                                            ++ (bytes
                                                            "4 paragraphs. Stop when the explanation is complete.")))))))))))))))))))))))),
      ctx
          ++ (bytes "Change: "
              ++ (step_label
                  ++ (bytes " ("
                      ++ (step_kind
                          ++ (bytes ")"
                              ++ (newline
                                  ++ (newline
                                      ++ (bytes "Diff:"
                                          ++ (newline
                                              ++ (code
                                                  ++ (newline
                                                      ++ (newline
                                                          ++ (bytes
                                                            "Explain what this change does and why it might have been made."))))))))))))),
    )
    else (
      bytes "You are a patient, expert code guide explaining "
          ++ (language
              ++ (bytes " code to a developer at experience level "
                  ++ (itoa (pos level)
                      ++ (bytes "/10."
                          ++ (newline
                              ++ (newline
                                  ++ (bytes "Narration style guidelines:"
                                      ++ (newline
                                          ++ (bytes "- Level 1"
                                              ++ (en_dash
                                                  ++ (bytes
                                                        "3 (junior): Use simple analogies. Avoid jargon. Explain every construct."
                                                      ++ (newline
                                                          ++ (bytes "- Level 4"
                                                            ++ (en_dash
                                                            ++ (bytes
                                                            "6 (mid): Assume familiarity with basic constructs. Focus on intent and patterns."
                                                            ++ (newline
                                                            ++ (bytes "- Level 7"
                                                            ++ (en_dash
                                                            ++ (bytes
                                                            "10 (senior): Be concise. Focus on design decisions, trade-offs, and non-obvious behaviour."
                                                            ++ (newline
                                                            ++ (newline
                                                            ++ (bytes
                                                            "Format: Prose paragraphs only. No bullet lists. No markdown headers."
                                                            ++ (newline
                                                            ++ (bytes "Length: 2"
                                                            ++ (en_dash
                                                            ++ (bytes
                                                            "4 paragraphs. Stop when the explanation is complete.")))))))))))))))))))))))))),
      ctx
          ++ (bytes "Step: "
              ++ (step_label
                  ++ (bytes " ("
                      ++ (step_kind
                          ++ (bytes ")"
                              ++ (newline
                                  ++ (newline
                                      ++ (bytes "Code:"
                                          ++ (newline
                                              ++ (code
                                                  ++ (newline
                                                      ++ (newline
                                                          ++ (bytes
                                                            "Narrate this step."))))))))))))),
    )
