-- ===== src/ShardCtrler/Common.antt =====
-- src/shardctrler/common.go: configurations and commands. A group's id is an integer: 0 is no
-- group.
use Prim.Native.String.{String}
use nexus_mind.Prelude.{ℕ, List, [], replicate}
use nexus_mind.Prelude.Int.{ℤ, pos}
use nexus_mind.Prelude.Dict.{Dict}

abbrev pub n_shards : ℕ
n_shards = 10

-- `shards` has `n_shards` entries: the group of each shard.
pub record Config : Type 0 where
  pub num : ℕ
  pub shards : List ℤ
  pub groups : Dict ℤ (List String)

unfoldable pub default_config : Config
default_config = record { num = 0; shards = replicate n_shards (pos 0); groups = [] }

-- The error strings; `no_err` is the empty one that a fresh reply holds.
pub data Err : Type 0 where
  no_err ok err_wrong_leader err_timeout : Err

pub data OperationType : Type 0 where
  op_join op_leave op_move op_query : OperationType

pub record Op : Type 0 where
  pub servers : Dict ℤ (List String)
  pub gids : List ℤ
  pub shard : ℤ
  pub gid : ℤ
  pub num : ℤ
  pub op_type : OperationType
  pub client_id : ℕ
  pub seq_id : ℕ

pub record OpReply : Type 0 where
  pub controller_config : Config
  pub err : Err

pub record LastOperationInfo : Type 0 where
  pub seq_id : ℕ
  pub reply : OpReply
