-- ===== src/ShardKv/Migration.antt =====
-- src/shardkv/conf_change.go: the commands of a configuration change. Go goes through a map in any
-- order; here it is the order of the list. `none` is a panic, a nil shard included.
use Prim.Native.String.{String}
use nexus_mind.Prelude.{
  ℕ, suc, ◌+◌, Bool, true, false, not, ◌&&◌, Option, none, some, List, [], ◌∷◌, ltb, ◌==◌,
  if◌then◌else◌, ◌>>=◌,
}
use nexus_mind.Prelude.Int.{ℤ, pos, ◌==ℤ◌}
use nexus_mind.Prelude.Dict.{Dict, nat_eq, string_eq, lookup, insert}
use nexus_mind.ShardCtrler.Common.{Config}
use nexus_mind.ShardKv.Common.{
  ok, err_wrong_config, OpReply, LastOperationInfo, ShardStatus, normal, move_in, move_out, gc,
  ShardOperationArgs, ShardOperationReply, RaftCommand, client_operation, config_change,
  shard_migration, shard_gc,
}
use nexus_mind.ShardKv.Shards.{Shard, new_shard}
use nexus_mind.ShardKv.Server.{ShardKv}

-- The status that a shard gets whose group is `old` and becomes `new`; `none` leaves it.
unfoldable pub new_status : ℤ → ℤ → ℤ → Option ShardStatus
new_status gid old new =
    if not (old ==ℤ gid) && (new ==ℤ gid)
    then (if old ==ℤ pos 0 then none else some move_in)
    else if (old ==ℤ gid) && not (new ==ℤ gid)
    then (if new ==ℤ pos 0 then none else some move_out)
    else none

-- The shard must be there, if there is a status to set.
unfoldable pub set_status : Option ShardStatus → ℕ → Dict ℕ Shard → Option (Dict ℕ Shard)
set_status none i shards = some shards
set_status (some status) i shards =
    lookup i shards >>= λ s. some (insert i (record s { status = status }) shards)

-- From shard `i` on, for the two arrays' groups.
unfoldable pub set_statuses : ℤ → List ℤ → List ℤ → ℕ → Dict ℕ Shard → Option (Dict ℕ Shard)
unfolding new_status set_status
set_statuses gid (o ∷ old) (n ∷ new) i shards =
    set_status (new_status gid o n) i shards >>= λ shards'. set_statuses gid old new (suc i) shards'
set_statuses gid _ _ i shards = some shards

unfoldable pub apply_new_config : Config → ShardKv → Option (ShardKv × OpReply)
unfolding set_statuses
apply_new_config config kv =
    if kv.current_config.num + 1 == config.num
    then (set_statuses kv.gid kv.current_config.shards config.shards 0 kv.shards >>= λ shards.
        some (
          record kv { shards = shards; prev_config = kv.current_config; current_config = config },
          record { value = ""; err = ok },
        ))
    else some (kv, record { value = ""; err = err_wrong_config })

unfoldable pub copy_into : Dict String String → Dict String String → Dict String String
copy_into [] kv = kv
copy_into ((k, v) ∷ m) kv = copy_into m (insert k v kv)

unfoldable pub is_move_in : ShardStatus → Bool
is_move_in move_in = true
is_move_in _ = false

-- The first shard that does not move in ends the loop.
unfoldable pub migrate_shards : Dict ℕ (Dict String String) → Dict ℕ Shard → Option (Dict ℕ Shard)
unfolding copy_into is_move_in
migrate_shards [] shards = some shards
migrate_shards ((i, m) ∷ rest) shards = lookup i shards >>= λ s.
    (let more =
        migrate_shards rest (insert i (record { kv = copy_into m s.kv; status = gc }) shards) in
      if is_move_in s.status then more else some shards)

-- The later of two entries of a client is kept.
unfoldable pub keep_later :
    ℕ → LastOperationInfo → Dict ℕ LastOperationInfo → Dict ℕ LastOperationInfo
keep_later client info table = elim (lookup client table) [
  | none ↦ insert client info table
  | some mine ↦ if ltb mine.seq_id info.seq_id then insert client info table else table
]

unfoldable pub merge_table :
    Dict ℕ LastOperationInfo → Dict ℕ LastOperationInfo → Dict ℕ LastOperationInfo
unfolding keep_later
merge_table [] table = table
merge_table ((client, info) ∷ rest) table = merge_table rest (keep_later client info table)

-- The reply is the same in both cases.
unfoldable pub apply_shard_migration : ShardOperationReply → ShardKv → Option (ShardKv × OpReply)
unfolding migrate_shards merge_table
apply_shard_migration moved kv =
    (if moved.config_num == kv.current_config.num
      then (migrate_shards moved.shard_data kv.shards >>= λ shards. some (record kv {
        shards = shards;
        duplicate_table = merge_table moved.duplicate_table kv.duplicate_table;
      }))
      else some kv)
    >>= λ kv'. some (kv', record { value = ""; err = err_wrong_config })

-- The first shard that is neither to be cleaned up nor given away ends the loop.
unfoldable pub collect_garbage : List ℕ → Dict ℕ Shard → Option (Dict ℕ Shard)
unfolding new_shard
collect_garbage [] shards = some shards
collect_garbage (i ∷ ids) shards = lookup i shards >>= λ s.
    (let kept = collect_garbage ids (insert i (record s { status = normal }) shards) in
      let given = collect_garbage ids (insert i new_shard shards) in
      elim s.status [ gc ↦ kept | move_out ↦ given | _ ↦ some shards ])

unfoldable pub apply_shard_gc : ShardOperationArgs → ShardKv → Option (ShardKv × OpReply)
unfolding collect_garbage
apply_shard_gc info kv =
    (if info.config_num == kv.current_config.num
      then (collect_garbage info.shard_ids kv.shards >>= λ shards.
          some (record kv { shards = shards }))
      else some kv)
    >>= λ kv'. some (kv', record { value = ""; err = ok })

-- A client's operation is not handed to it.
unfoldable pub handle_config_change_message : RaftCommand → ShardKv → Option (ShardKv × OpReply)
unfolding apply_new_config apply_shard_migration apply_shard_gc
handle_config_change_message (client_operation op) kv = none
handle_config_change_message (config_change config) kv = apply_new_config config kv
handle_config_change_message (shard_migration moved) kv = apply_shard_migration moved kv
handle_config_change_message (shard_gc info) kv = apply_shard_gc info kv
