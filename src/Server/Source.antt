-- ===== src/Server/Source.antt =====
-- server/navigate.go: `sliceSource`, and which code a step shows.
use codewalker.Prelude.{
  ℕ, ◌-◌, Bytes, Bool, true, false, [], ◌∷◌, Option, none, some, length, take, drop, leb, ltb,
  if◌then◌else◌,
}
use codewalker.Prelude.Strings.{split, join}
use codewalker.Proto.{SourceSpan, HunkSpan}

-- Lines `start` to `end`, both from 1. A slice with its bounds crossed panics: `none`.
unfoldable pub slice_source : Bytes → ℕ → ℕ → Option Bytes
unfolding split join
slice_source src start end =
    let lines = split src b'\n' in
    let first : ℕ = if ltb start 1 then 1 else start in
    let last : ℕ = if ltb (length lines) end then length lines else end in
    if leb (first - 1) last
    then some (join (drop (first - 1) (take last lines)) (b'\n' ∷ []))
    else none

is_empty : Bytes → Bool
is_empty [] = true
is_empty (c ∷ s) = false

-- The code of a source span, from the span or else from the session's source.
unfoldable pub span_code : Bytes → SourceSpan → Option Bytes
unfolding slice_source is_empty
span_code src span =
    if is_empty span.raw_source
    then if is_empty src
      then some span.raw_source
      else slice_source src span.start_line span.end_line
    else some span.raw_source

-- The code that `Navigate` narrates; `none` is a panic.
unfoldable pub step_code : Bytes → Option HunkSpan → Option SourceSpan → Option Bytes
unfolding span_code
step_code src (some h) source = some h.raw_diff
step_code src none (some span) = span_code src span
step_code src none none = some []
