-- ===== src/ShardKv/Once.antt =====
-- src/shardkv/task.go: a client's write takes effect once in a group.
use nexus_mind.Prelude.{
  ℕ, ◌≤◌, ◌≡◌, ◌⊎◌, inl, inr, false, List, [], ◌∷◌, Option, some, arith, ◌>>=◌, Option-cases,
  some-inj, >>=-eq-some,
}
use nexus_mind.Prelude.Dict.{Dict, nat_eq, lookup, insert, lookup-insert}
use nexus_mind.ShardKv.Common.{
  Op, OpReply, LastOperationInfo, is_get, RaftCommand, client_operation, config_change,
  shard_migration, shard_gc, err_wrong_group,
}
use nexus_mind.ShardKv.Server.{ShardKv, request_duplicated, stored_reply, apply_to_state_machine}
use nexus_mind.ShardKv.Migration.{merge_table}
use nexus_mind.ShardKv.Task.{apply_client_operation, run_command}
use nexus_mind.ShardKv.Copies.{HasSeen, merge_table-HasSeen}

-- The commands of the log, one after the other.
unfoldable pub run_commands : List RaftCommand → ShardKv → Option ShardKv
run_commands [] kv = some kv
run_commands (command ∷ commands) kv = (run_command command kv >>= λ p. run_commands commands p.0)

table-apply_to_state_machine :
    (op : Op) (i : ℕ) (kv : ShardKv) (p : ShardKv × OpReply)
    → apply_to_state_machine op i kv ≡ some p
    → p.0.duplicate_table ≡ kv.duplicate_table
unfolding apply_to_state_machine
table-apply_to_state_machine op i kv p h = ground arith

-- What a client's operation leaves in the table of duplicates.
abbrev After : Op → ShardKv → ShardKv × OpReply → Type 0
After op kv p =
    (p.0.duplicate_table ≡ kv.duplicate_table)
    ⊎ ((request_duplicated kv.duplicate_table op.client_id op.seq_id ≡ false)
        × (p.0.duplicate_table
            ≡ insert op.client_id (record { seq_id = op.seq_id; reply = p.1 }) kv.duplicate_table))

apply_client_operation-After :
    (op : Op) (kv : ShardKv) (p : ShardKv × OpReply)
    → apply_client_operation op kv ≡ some p
    → After op kv p
unfolding apply_client_operation
apply_client_operation-After op kv p h = ground arith

insert-HasSeen :
    (client seq c s : ℕ) (r : OpReply) (table : Dict ℕ LastOperationInfo)
    → request_duplicated table c s ≡ false
    → HasSeen client seq table
    → HasSeen client seq (insert c (record { seq_id = s; reply = r }) table)
unfolding request_duplicated
insert-HasSeen client seq c s r table n (i, e, l) =
    let t = insert c (record { seq_id = s; reply = r }) table in
    elim (Option-cases (lookup client t)) [
      | inl z ↦
          absurd (ground (arith, lookup-insert c client (record { seq_id = s; reply = r }) table))
      | inr (j, f) ↦ (
        j,
        f,
        ground (
          arith,
          nat_eq.beq_iff c client,
          lookup-insert c client (record { seq_id = s; reply = r }) table,
        ),
      )
    ]

run_command-HasSeen :
    (command : RaftCommand) (kv : ShardKv) (p : ShardKv × OpReply) (client seq : ℕ)
    → run_command command kv ≡ some p
    → HasSeen client seq kv.duplicate_table
    → HasSeen client seq p.0.duplicate_table
unfolding run_command
run_command-HasSeen (client_operation op) kv p client seq h d =
    elim (apply_client_operation-After op kv p h) [
      | inl same ↦ rw same d
      | inr (n, new) ↦
          rw new (insert-HasSeen client seq op.client_id op.seq_id p.1 kv.duplicate_table n d)
    ]
run_command-HasSeen (config_change config) kv p client seq h (i, e, l) =
    let same : p.0.duplicate_table ≡ kv.duplicate_table = ground arith in rw same (i, e, l)
run_command-HasSeen (shard_migration moved) kv p client seq h d =
    let t : (p.0.duplicate_table ≡ kv.duplicate_table)
        ⊎ (p.0.duplicate_table ≡ merge_table moved.duplicate_table kv.duplicate_table) =
      ground arith in
    elim t [
      | inl same ↦ rw same d
      | inr new ↦
          rw new (merge_table-HasSeen client seq moved.duplicate_table kv.duplicate_table (inl d))
    ]
run_command-HasSeen (shard_gc info) kv p client seq h (i, e, l) =
    let same : p.0.duplicate_table ≡ kv.duplicate_table = ground arith in rw same (i, e, l)

pub run_commands-HasSeen :
    (commands : List RaftCommand) (kv kv' : ShardKv) (client seq : ℕ)
    → run_commands commands kv ≡ some kv'
    → HasSeen client seq kv.duplicate_table
    → HasSeen client seq kv'.duplicate_table
unfolding run_commands
run_commands-HasSeen [] kv kv' client seq h d = let same = some-inj kv kv' h in rw same at d
run_commands-HasSeen (command ∷ commands) kv kv' client seq h d =
    let (p, e, g) = >>=-eq-some (run_command command kv) (λ p. run_commands commands p.0) h in
    run_commands-HasSeen commands p.0 kv' client seq g
      (run_command-HasSeen command kv p client seq e d)

-- Once a group knows a client's command as done, a write of that client that is not newer leaves
-- the whole group as it is, whatever commands came in between, new configurations, migrations and
-- clean-ups included; it is answered with the reply that stands for the client, or with the error
-- for another group's key.
pub seen_no_effect :
    (again : Op) (commands : List RaftCommand) (kv later : ShardKv) (p : ShardKv × OpReply)
    (seq : ℕ)
    → HasSeen again.client_id seq kv.duplicate_table
    → again.seq_id ≤ seq
    → is_get again.op_type ≡ false
    → run_commands commands kv ≡ some later
    → apply_client_operation again later ≡ some p
    → (p.0 ≡ later)
      × ((p.1 ≡ stored_reply later.duplicate_table again.client_id) ⊎ (p.1.err ≡ err_wrong_group))
unfolding apply_client_operation request_duplicated
seen_no_effect again commands kv later p seq d le g h e =
    let (i, f, l) = run_commands-HasSeen commands kv later again.client_id seq h d in ground arith
