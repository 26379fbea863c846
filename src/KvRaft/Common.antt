-- ===== src/KvRaft/Common.antt =====
-- src/kvraft/common.go: operations, replies and errors.
use Prim.Native.String.{String}
use text.Mathlib.Text.{◌==◌ as str_eq}
use nexus_mind.Prelude.{ℕ, Bool, true, false, Option, none, some, if◌then◌else◌}
use nexus_mind.Prelude.Dict.{string_eq}

-- The error strings; `no_err` is the empty one that a fresh reply holds.
pub data Err : Type 0 where
  no_err ok err_no_key err_wrong_leader err_timeout : Err

pub data OperationType : Type 0 where
  op_get op_put op_append : OperationType

unfoldable pub is_get : OperationType → Bool
is_get op_get = true
is_get _ = false

-- Any other text panics.
unfoldable pub get_operation_type : String → Option OperationType
get_operation_type v =
    if str_eq v "Put" then some op_put else if str_eq v "Append" then some op_append else none

pub record PutAppendArgs : Type 0 where
  pub key : String
  pub value : String
  pub op : String
  pub client_id : ℕ
  pub seq_id : ℕ

pub record Op : Type 0 where
  pub key : String
  pub value : String
  pub op_type : OperationType
  pub client_id : ℕ
  pub seq_id : ℕ

pub record OpReply : Type 0 where
  pub value : String
  pub err : Err

pub record LastOperationInfo : Type 0 where
  pub seq_id : ℕ
  pub reply : OpReply
