-- ===== src/ShardKv/Task.antt =====
-- src/shardkv/task.go: the apply loop, what the other loops read and send, and the handlers of the
-- other groups' calls. `none` is a panic, or a send that blocks.
use Prim.Native.String.{String}
use nexus_mind.Prelude.{
  ℕ, ◌+◌, Bool, true, false, not, ◌&&◌, Option, none, some, List, [], ◌∷◌, ◌++◌, leb, ltb, ◌==◌,
  if◌then◌else◌, ◌>>=◌, get_elem?,
}
use nexus_mind.Prelude.Int.{ℤ, pos, negsuc, minus_one, ◌==ℤ◌}
use nexus_mind.Prelude.Dict.{Dict, nat_eq, int_eq, lookup, insert}
use nexus_mind.Raft.Application.{ApplyMsg, command_msg, snapshot_msg}
use nexus_mind.ShardCtrler.Common.{Config}
use nexus_mind.ShardKv.Common.{
  ok, err_wrong_group, err_wrong_leader, err_not_ready, is_get, Op, OpReply, LastOperationInfo,
  ShardStatus, normal, move_in, move_out, gc, ShardOperationArgs, ShardOperationReply, RaftCommand,
  client_operation, config_change, shard_gc, key2shard,
}
use nexus_mind.ShardKv.Shards.{Shard, copy_data}
use nexus_mind.ShardKv.Server.{
  ShardKv, SnapshotCodec, Submit, answer, submit, match_group, request_duplicated, stored_reply,
  apply_to_state_machine, get_notify_channel, make_snapshot, restore_from_snapshot,
}
use nexus_mind.ShardKv.Migration.{handle_config_change_message}

unfoldable pub apply_client_operation : Op → ShardKv → Option (ShardKv × OpReply)
unfolding match_group is_get request_duplicated stored_reply apply_to_state_machine
apply_client_operation op kv = match_group op.key kv >>= λ mine.
    if not mine
    then some (kv, record { value = ""; err = err_wrong_group })
    else if not (is_get op.op_type) && request_duplicated kv.duplicate_table op.client_id op.seq_id
    then some (kv, stored_reply kv.duplicate_table op.client_id)
    else (apply_to_state_machine op (key2shard op.key) kv >>= λ p. some (
      record (p.0) {
        duplicate_table =
            if is_get op.op_type
            then kv.duplicate_table
            else insert op.client_id (record { seq_id = op.seq_id; reply = p.1 })
                kv.duplicate_table;
      },
      p.1,
    ))

unfoldable pub run_command : RaftCommand → ShardKv → Option (ShardKv × OpReply)
unfolding apply_client_operation handle_config_change_message
run_command (client_operation op) kv = apply_client_operation op kv
run_command command kv = handle_config_change_message command kv

-- `notifyCh <- opReply`: a full channel blocks.
unfoldable pub notify : ℕ → OpReply → ShardKv → Option ShardKv
unfolding get_notify_channel
notify index reply kv =
    let (kv', ch) = get_notify_channel index kv in
    elim ch [
      | none ↦ some (record kv' { notify_chans = insert index (some reply) kv'.notify_chans })
      | some _ ↦ none
    ]

-- `size >= maxraftstate`.
unfoldable pub reaches : ℕ → ℤ → Bool
reaches size (pos m) = leb m size
reaches size (negsuc m) = true

module _ {B : Type 0} (codec : SnapshotCodec B) where
  -- One command that the peer has committed, with the call `Snapshot(index, bytes)`, if it is made.
  unfoldable pub apply_command :
      Bool → ℕ → ℕ → RaftCommand → ShardKv → Option (ShardKv × Option (ℕ × B))
  unfolding run_command notify reaches make_snapshot
  apply_command leads size index command kv =
      if leb index kv.last_applied then some (kv, none) else do
        p ← run_command command (record kv { last_applied = index })
        kv' ← (if leads then notify index p.1 p.0 else some p.0)
        some (
          kv',
          if not (kv'.maxraftstate ==ℤ minus_one) && reaches size kv'.maxraftstate
              then some (index, make_snapshot codec kv')
              else none,
        )

  -- One round of `applyTask`.
  unfoldable pub apply_message :
      Bool → ℕ → ApplyMsg RaftCommand B → ShardKv → Option (ShardKv × Option (ℕ × B))
  unfolding apply_command restore_from_snapshot
  apply_message leads size (command_msg false command index) kv = some (kv, none)
  apply_message leads size (command_msg true none index) kv =
      if leb index kv.last_applied then some (kv, none) else none
  apply_message leads size (command_msg true (some command) index) kv =
      apply_command leads size index command kv
  apply_message leads size (snapshot_msg bytes term index) kv =
      restore_from_snapshot codec bytes kv >>= λ kv'.
      some (record kv' { last_applied = index }, none)

unfoldable pub status_eq : ShardStatus → ShardStatus → Bool
status_eq normal normal = true
status_eq move_in move_in = true
status_eq move_out move_out = true
status_eq gc gc = true
status_eq _ _ = false

-- No shard is on its way.
unfoldable pub needs_fetch : Dict ℕ Shard → Bool
unfolding status_eq
needs_fetch [] = true
needs_fetch ((i, s) ∷ shards) = status_eq s.status normal && needs_fetch shards

-- The command that a leader proposes when the controller answers with `config`, which it asks for
-- only if `needs_fetch`.
unfoldable pub fetched_command : ℕ → Config → Option RaftCommand
fetched_command current_num config =
    if config.num == current_num + 1 then some (config_change config) else none

-- The shards of a status, at the groups that had them; an index out of the array panics.
unfoldable pub get_shard_by_status :
    ShardStatus → List ℤ → Dict ℕ Shard → Dict ℤ (List ℕ) → Option (Dict ℤ (List ℕ))
unfolding status_eq
get_shard_by_status status prev [] out = some out
get_shard_by_status status prev ((i, s) ∷ shards) out =
    let skip = get_shard_by_status status prev shards out in
    if not (status_eq s.status status)
    then skip
    else (get_elem? prev i >>= λ g.
        (let add =
            get_shard_by_status status prev shards
              (insert g ((elim (lookup g out) [ none ↦ [] | some l ↦ l ]) ++ i ∷ []) out) in
          if g ==ℤ pos 0 then skip else add))

unfoldable pub copy_shards :
    List ℕ → Dict ℕ Shard → Dict ℕ (Dict String String) → Option (Dict ℕ (Dict String String))
unfolding copy_data
copy_shards [] shards out = some out
copy_shards (i ∷ ids) shards out =
    lookup i shards >>= λ s. copy_shards ids shards (insert i (copy_data s.kv) out)

-- `copyData` of the entries gives the same ones.
unfoldable pub copy_table : Dict ℕ LastOperationInfo → Dict ℕ LastOperationInfo
copy_table [] = []
copy_table ((client, info) ∷ table) = insert client info (copy_table table)

unfoldable pub get_shards_data : Bool → ShardOperationArgs → ShardKv → Option ShardOperationReply
unfolding copy_shards copy_table
get_shards_data leads args kv =
    if not leads
    then some
        (record { err = err_wrong_leader; config_num = 0; shard_data = []; duplicate_table = [] })
    else if ltb kv.current_config.num args.config_num
    then some
        (record { err = err_not_ready; config_num = 0; shard_data = []; duplicate_table = [] })
    else (copy_shards args.shard_ids kv.shards [] >>= λ copies. some (record {
      err = ok;
      config_num = args.config_num;
      shard_data = copies;
      duplicate_table = copy_table kv.duplicate_table;
    }))

-- A group that has moved on has deleted them; else the deletion is a command of the log.
unfoldable pub delete_shards_data : Bool → ShardOperationArgs → ShardKv → Submit
delete_shards_data leads args kv =
    if not leads
    then answer err_wrong_leader
    else if ltb args.config_num kv.current_config.num
    then answer ok
    else submit (shard_gc args)
