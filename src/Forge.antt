-- ===== src/Forge.antt =====
-- internal/forge/context.go, handler.go and error.go: what a forge handler takes and returns.
pub mod Host
pub mod Github
pub mod Orderers
use codewalker.Prelude.{Bytes, List}
use codewalker.Prelude.Int.{ℤ}

pub data ForgeContextKind : Type 0 where
  unspecified pr commit comparison : ForgeContextKind

pub record ForgeContext : Type 0 where
  pub kind : ForgeContextKind
  pub forge : Bytes
  pub owner : Bytes
  pub repo : Bytes
  pub base_ref : Bytes
  pub head_ref : Bytes
  pub pr_number : ℤ
  pub pr_title : Bytes
  pub pr_description : Bytes
  pub pr_author : Bytes
  pub url : Bytes

pub record Hunk : Type 0 where
  pub old_start : ℤ
  pub old_lines : ℤ
  pub new_start : ℤ
  pub new_lines : ℤ
  pub raw_diff : Bytes

pub record ReviewFile : Type 0 where
  pub path : Bytes
  pub language : Bytes
  pub change_kind : Bytes
  pub old_path : Bytes
  pub hunks : List Hunk
  pub lines_added : ℤ
  pub lines_removed : ℤ

pub record ReviewPayload : Type 0 where
  pub context : ForgeContext
  pub files : List ReviewFile

pub data ErrCode : Type 0 where
  unknown auth_failed not_found : ErrCode

-- An error of a handler: a typed `forge.Error`, with its message and its detail, or any other error,
-- whose message is not modelled.
pub data ForgeError : Type 0 where
  typed : ErrCode → Bytes → Bytes → ForgeError
  plain : ForgeError

pub record PullRequest : Type 0 where
  pub number : ℤ
  pub title : Bytes
  pub author : Bytes
  pub url : Bytes
  pub head_ref : Bytes
