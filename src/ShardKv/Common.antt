-- ===== src/ShardKv/Common.antt =====
-- src/shardkv/common.go and the placement of keys in src/shardkv/client.go: commands, replies and
-- errors.
use Prim.Native.String.{String}
use Prim.Native.Char.{code}
use text.Mathlib.Text.{◌==◌ as str_eq}
use nexus_mind.Prelude.{
  ℕ, ◌+◌, ◌/◌, ◌%◌, Bool, true, false, Option, none, some, List, ltb, if◌then◌else◌,
}
use nexus_mind.Prelude.Dict.{Dict}
use nexus_mind.ShardCtrler.Common.{n_shards, Config}

-- The error strings; `no_err` is the empty one that a fresh reply holds.
pub data Err : Type 0 where
  no_err ok err_no_key err_wrong_group err_wrong_leader err_timeout err_wrong_config err_not_ready :
      Err

pub data OperationType : Type 0 where
  op_get op_put op_append : OperationType

unfoldable pub is_get : OperationType → Bool
is_get op_get = true
is_get _ = false

-- Any other text panics.
unfoldable pub get_operation_type : String → Option OperationType
get_operation_type v =
    if str_eq v "Put" then some op_put else if str_eq v "Append" then some op_append else none

pub record PutAppendArgs : Type 0 where
  pub key : String
  pub value : String
  pub op : String
  pub client_id : ℕ
  pub seq_id : ℕ

pub record Op : Type 0 where
  pub key : String
  pub value : String
  pub op_type : OperationType
  pub client_id : ℕ
  pub seq_id : ℕ

pub record OpReply : Type 0 where
  pub value : String
  pub err : Err

pub record LastOperationInfo : Type 0 where
  pub seq_id : ℕ
  pub reply : OpReply

pub data ShardStatus : Type 0 where
  normal move_in move_out gc : ShardStatus

pub record ShardOperationArgs : Type 0 where
  pub config_num : ℕ
  pub shard_ids : List ℕ

pub record ShardOperationReply : Type 0 where
  pub err : Err
  pub config_num : ℕ
  pub shard_data : Dict ℕ (Dict String String)
  pub duplicate_table : Dict ℕ LastOperationInfo

-- `CmdType` with the `Data` that it is made with.
pub data RaftCommand : Type 0 where
  client_operation : Op → RaftCommand
  config_change : Config → RaftCommand
  shard_migration : ShardOperationReply → RaftCommand
  shard_gc : ShardOperationArgs → RaftCommand

-- The first byte of a character's UTF-8.
first_byte : ℕ → ℕ
first_byte c =
    if ltb c 128
    then c
    else if ltb c 2048
    then 192 + c / 64
    else if ltb c 65536
    then 224 + c / 4096
    else 240 + c / 262144

unfoldable pub key2shard : String → ℕ
unfolding first_byte
key2shard String.[] = 0
key2shard (String.◌∷◌ c key) = first_byte (code c) % n_shards
