-- ===== src/ShardKv/Shards.antt =====
-- src/shardkv/state_machine.go: a shard, its keys and its status.
use Prim.Native.String.{String, ◌++◌}
use nexus_mind.Prelude.{Option, none, some, [], ◌∷◌}
use nexus_mind.Prelude.Dict.{Dict, string_eq, lookup, insert}
use nexus_mind.ShardKv.Common.{Err, ok, err_no_key, ShardStatus, normal}

pub record Shard : Type 0 where
  pub kv : Dict String String
  pub status : ShardStatus

unfoldable pub new_shard : Shard
new_shard = record { kv = []; status = normal }

-- A missing key reads as "".
unfoldable pub value_or_empty : Option String → String
value_or_empty none = ""
value_or_empty (some v) = v

unfoldable pub get : String → Shard → String × Err
get key s = elim (lookup key s.kv) [ none ↦ ("", err_no_key) | some v ↦ (v, ok) ]

unfoldable pub put : String → String → Shard → Shard × Err
put key value s = (record s { kv = insert key value s.kv }, ok)

unfoldable pub append : String → String → Shard → Shard × Err
unfolding value_or_empty
append key value s =
    (record s { kv = insert key (value_or_empty (lookup key s.kv) ++ value) s.kv }, ok)

-- `copyData`: a new map with the same entries.
unfoldable pub copy_data : Dict String String → Dict String String
copy_data [] = []
copy_data ((k, v) ∷ m) = insert k v (copy_data m)
