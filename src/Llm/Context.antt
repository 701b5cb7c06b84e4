-- ===== src/Llm/Context.antt =====
-- internal/llm/context.go: `BuildMessages`, the prompt of a narration.
use codewalker.Prelude.{ℕ, Bytes, bytes, List, [], ◌∷◌, ◌++◌, leb, ◌==◌, if◌then◌else◌}
use codewalker.Prelude.Int.{pos}
use codewalker.Prelude.Strings.{join, itoa}

-- The line end, and the characters of the prompts that are not ASCII, in UTF-8.
abbrev pub newline : Bytes
newline = 10 ∷ []

abbrev pub en_dash : Bytes
en_dash = 226 ∷ 128 ∷ 147 ∷ []

abbrev pub em_dash : Bytes
em_dash = 226 ∷ 128 ∷ 148 ∷ []

abbrev pub arrow : Bytes
arrow = 226 ∷ 134 ∷ 146 ∷ []

pub record StepContext : Type 0 where
  pub language : Bytes
  pub symbol_signature : Bytes
  pub call_chain : List Bytes
  pub raw_source : Bytes
  pub effective_level : ℕ

unfoldable pub narrate_style : ℕ → Bytes
narrate_style level =
    if leb level 3
    then bytes
        "Style: Use simple analogies. Avoid jargon. Explain every construct, including language keywords."
    else if leb level 6
    then bytes
        "Style: Assume familiarity with basic constructs. Focus on intent, patterns, and data flow."
    else bytes
        "Style: Be concise. Focus on design decisions, trade-offs, and non-obvious runtime behaviour."

unfoldable pub build_system : Bytes → ℕ → Bytes
unfolding itoa narrate_style
build_system language level =
    bytes "You are a patient, expert code guide explaining "
    ++ (language
        ++ (bytes " code to a developer at experience level "
            ++ (itoa (pos level)
                ++ (bytes "/10."
                    ++ (newline
                        ++ (newline
                            ++ (narrate_style level
                                ++ (newline
                                    ++ (newline
                                        ++ (bytes
                                              "Format: Prose paragraphs only. No bullet lists. No markdown headers."
                                            ++ (newline
                                                ++ (bytes "Length: 2"
                                                    ++ (en_dash
                                                        ++ (bytes
                                                            "4 paragraphs. Stop when the explanation is complete."))))))))))))))

unfoldable pub location : List Bytes → Bytes
unfolding join
location [] = []
location (label ∷ labels) =
    bytes "Location: " ++ (join (label ∷ labels) (bytes " " ++ (arrow ++ bytes " ")) ++ (newline))

unfoldable pub step_line : Bytes → Bytes
unfolding ◌==◌
step_line signature = if signature == [] then [] else bytes "Step: " ++ (signature ++ (newline))

unfoldable pub build_user : StepContext → Bytes
unfolding location step_line
build_user ctx =
    location ctx.call_chain
    ++ (step_line ctx.symbol_signature
        ++ (newline
            ++ (bytes "Code:"
                ++ (newline
                    ++ (ctx.raw_source
                        ++ (newline ++ (newline ++ (bytes "Narrate this step."))))))))

-- The system prompt and the one user message.
unfoldable pub build_messages : StepContext → Bytes × List Bytes
unfolding build_system build_user
build_messages ctx = (build_system ctx.language ctx.effective_level, build_user ctx ∷ [])
