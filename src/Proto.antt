-- ===== src/Proto.antt =====
-- The messages of gen/codewalker/v1/codewalker.pb.go (from codewalker.proto) that the server's
-- state and its answers are made of. A pointer that may be nil is an `Option`.
use codewalker.Prelude.{ℕ, Bytes, Bool, List, Option}

pub data StepKind : Type 0 where
  unspecified entry assignment conditional loop call return error_handle exit hunk : StepKind

pub data EdgeLabel : Type 0 where
  unspecified next true_branch false_branch branch_case loop_body loop_exit exception call :
      EdgeLabel

unfoldable pub EdgeLabel-discrete : Discrete EdgeLabel
EdgeLabel-discrete = hlevel

pub data SessionKind : Type 0 where
  unspecified walkthrough review : SessionKind

pub data ExperienceLevel : Type 0 where
  unspecified junior mid senior : ExperienceLevel

pub data TermKind : Type 0 where
  unspecified language pattern_term domain library : TermKind

pub record SourceSpan : Type 0 where
  pub start_line : ℕ
  pub start_column : ℕ
  pub end_line : ℕ
  pub end_column : ℕ
  pub raw_source : Bytes

pub record HunkSpan : Type 0 where
  pub file_path : Bytes
  pub old_start : ℕ
  pub old_lines : ℕ
  pub new_start : ℕ
  pub new_lines : ℕ
  pub raw_diff : Bytes
  pub context_before : Bytes
  pub context_after : Bytes

pub record ExternalCallInfo : Type 0 where
  pub package_name : Bytes
  pub symbol_name : Bytes
  pub llm_summary : Bytes
  pub docs_url : Bytes
  pub source_url : Bytes
  pub version : Bytes

pub record StepEdge : Type 0 where
  pub target_step_id : Bytes
  pub label : EdgeLabel
  pub description : Bytes
  pub navigable : Bool
  pub external_call_info : Option ExternalCallInfo

pub record GlossaryTerm : Type 0 where
  pub term : Bytes
  pub definition : Bytes
  pub step_id : Bytes
  pub kind : TermKind

pub record StepSummary : Type 0 where
  pub breaking : Bytes
  pub risk : Bytes
  pub what_changed : Bytes
  pub side_effects : Bytes
  pub tests : Bytes
  pub reviewer_focus : Bytes
  pub suggestion : Bytes
  pub confidence : Bytes

pub record StepComplete : Type 0 where
  pub step_id : Bytes
  pub new_terms : List GlossaryTerm
  pub available_edges : List StepEdge
  pub breadcrumb : List Bytes
  pub summary : Option StepSummary

pub data NarrateEvent : Type 0 where
  token : Bytes → NarrateEvent
  complete : StepComplete → NarrateEvent
  summary_ready : StepSummary → NarrateEvent
