-- ===== src/ShardKv/Tests.antt =====
-- src/shardkv/: the theorems at a shard that moves from group 1 to group 2.

use nexus_mind.Prelude.{
  ℕ, ◌<◌, ◌≤◌, ◌≡◌, refl, ◌⊎◌, inl, inr, true, false, none, some, [], ◌∷◌, arith, replicate,
  get_elem?, if◌then◌else◌, ==_iff,
}
use nexus_mind.Prelude.Int.{ℤ, pos, minus_one}
use nexus_mind.Prelude.Dict.{Dict, nat_eq, lookup, insert}
use nexus_mind.ShardCtrler.Common.{n_shards, Config}
use nexus_mind.ShardKv.Common.{
  err_wrong_group, err_timeout, is_get, normal, ok, err_wrong_config, op_put, Op, OpReply,
  LastOperationInfo, move_in, move_out, ShardOperationArgs, ShardOperationReply, config_change,
  key2shard,
}
use nexus_mind.ShardKv.Shards.{Shard}
use nexus_mind.ShardKv.Server.{stored_reply, ShardKv, is_serving}
use nexus_mind.ShardKv.Migration.{apply_new_config, apply_shard_migration, apply_shard_gc}
use nexus_mind.ShardKv.Task.{get_shards_data, run_command, apply_client_operation}
use nexus_mind.ShardKv.Copies.{HasSeen}
use nexus_mind.ShardKv.Handover.{mem, Received, handed_over}
use nexus_mind.ShardKv.Once.{run_commands, seen_no_effect}
use nexus_mind.ShardKv.Frozen.{run_clients, run_clients-frozen, config_next}
use nexus_mind.ShardKv.Configs.{Statuses, apply_new_config_lem}
use nexus_mind.ShardKv.Client.{
  Clerk, asks, panics, verdict, put_append_final, gid_of, attempt, calls, leader_of, ensure_leader,
  next_leader, set_leader,
}
use nexus_mind.ShardKv.Rounds.{Ended, attempt-Ended}
use nexus_mind.ShardKv.Garbage.{cleaned, apply_shard_gc_lem}

abbrev all_at : ℕ → ℤ → Config
all_at n g = record { num = n; shards = replicate n_shards g; groups = [] }

abbrev group : ℤ → Dict ℕ Shard → Dict ℕ LastOperationInfo → Config → Config → ShardKv
group gid shards table current prev = record {
  gid = gid;
  maxraftstate = minus_one;
  dead = false;
  last_applied = 0;
  shards = shards;
  notify_chans = [];
  duplicate_table = table;
  current_config = current;
  prev_config = prev;
}

abbrev full : Shard
full = record { kv = ("a", "1") ∷ []; status = move_out }

abbrev awaited : Shard
awaited = record { kv = []; status = move_in }

abbrev done : LastOperationInfo
done = record { seq_id = 3; reply = record { value = ""; err = ok } }

abbrev giver : ShardKv
giver = group (pos 1) ((0, full) ∷ []) ((7, done) ∷ []) (all_at 2 (pos 2)) (all_at 1 (pos 1))

abbrev taker : ShardKv
taker = group (pos 2) ((0, awaited) ∷ []) [] (all_at 2 (pos 2)) (all_at 1 (pos 1))

abbrev shard_zero : ShardOperationArgs
shard_zero = record { config_num = 2; shard_ids = 0 ∷ [] }

only_zero : (s : Shard) (i : ℕ) → mem i (0 ∷ []) ≡ true → lookup i ((0, s) ∷ []) ≡ some s
unfolding lookup
only_zero s i m = ground arith

handed_over_example :
    (moved : ShardOperationReply) × (dst' : ShardKv) × (reply : OpReply) × (get_shards_data true
        shard_zero giver
      ≡ some moved)
    × (apply_shard_migration moved taker ≡ some (dst', reply))
    × (reply.err ≡ err_wrong_config)
    × ((i : ℕ) → mem i (0 ∷ []) ≡ true → Received shard_zero giver taker i dst')
    × ((i : ℕ) → mem i (0 ∷ []) ≡ false → lookup i dst'.shards ≡ lookup i taker.shards)
    × ((client seq : ℕ)
        → HasSeen client seq giver.duplicate_table ⊎ HasSeen client seq taker.duplicate_table
        → HasSeen client seq dst'.duplicate_table)
handed_over_example =
    handed_over shard_zero giver taker (omega arith) refl (λ i m. (full, only_zero full i m))
      (λ i m. (awaited, only_zero awaited i m, refl))

abbrev put_a : Op
put_a = record { key = "d"; value = "2"; op_type = op_put; client_id = 7; seq_id = 4 }

abbrev put_run : ShardKv
put_run = elim (run_clients (put_a ∷ []) taker) [ none ↦ taker | some kv ↦ kv ]

run_clients-frozen_example :
    (lookup 0 put_run.shards ≡ lookup 0 taker.shards)
    × (put_run.current_config ≡ taker.current_config)
unfolding run_clients key2shard lookup is_serving apply_client_operation
run_clients-frozen_example =
    run_clients-frozen (put_a ∷ []) taker put_run 0 (awaited, refl, inl (inl refl)) refl

abbrev ten : Dict ℕ Shard
ten =
    (0, full)
    ∷ (1, full)
    ∷ (2, full)
    ∷ (3, full)
    ∷ (4, full)
    ∷ (5, full)
    ∷ (6, full)
    ∷ (7, full)
    ∷ (8, full)
    ∷ (9, full)
    ∷ []

ten_there : (i : ℕ) → i < n_shards → (s : Shard) × (lookup i ten ≡ some s)
unfolding lookup
ten_there i l = (
  full,
  ground (
    arith,
    ==_iff 0 i,
    ==_iff 1 i,
    ==_iff 2 i,
    ==_iff 3 i,
    ==_iff 4 i,
    ==_iff 5 i,
    ==_iff 6 i,
    ==_iff 7 i,
    ==_iff 8 i,
    ==_iff 9 i,
  ),
)

abbrev before : ShardKv
before = group (pos 1) ten [] (all_at 1 (pos 1)) (all_at 0 (pos 0))

apply_new_config_lem_example :
    (kv' : ShardKv) × (reply : OpReply) × (apply_new_config (all_at 2 (pos 2)) before
      ≡ some (kv', reply))
    × (reply.err ≡ ok)
    × (kv'.current_config ≡ all_at 2 (pos 2))
    × (kv'.prev_config ≡ before.current_config)
    × ((i : ℕ) (o n : ℤ)
        → get_elem? before.current_config.shards i ≡ some o
        → get_elem? (all_at 2 (pos 2)).shards i ≡ some n
        → Statuses (pos 1) o n (lookup i ten) (lookup i kv'.shards))
apply_new_config_lem_example =
    apply_new_config_lem (all_at 2 (pos 2)) before refl refl refl (λ e. cc) ten_there

abbrev changed : ShardKv × OpReply
changed = elim (run_command (config_change (all_at 2 (pos 2))) before) [
  | none ↦ (before, record { value = ""; err = ok })
  | some p ↦ p
]

config_next_example :
    ((changed.0.current_config ≡ before.current_config)
      × (changed.0.prev_config ≡ before.prev_config))
    ⊎ ((changed.0.current_config.num ≡ 2) × (changed.0.prev_config ≡ before.current_config))
unfolding run_command lookup insert
config_next_example =
    config_next (config_change (all_at 2 (pos 2))) before (changed.0) (changed.1) refl

apply_shard_gc_lem_example :
    (kv' : ShardKv) × (reply : OpReply) × (apply_shard_gc shard_zero giver ≡ some (kv', reply))
    × (reply.err ≡ ok)
    × ((i : ℕ)
        → lookup i kv'.shards
          ≡ (if mem i (0 ∷ []) then cleaned (lookup i giver.shards) else lookup i giver.shards))
apply_shard_gc_lem_example =
    apply_shard_gc_lem shard_zero giver refl (refl, tt)
      (λ i m. (full, only_zero full i m, inr refl))

abbrev serving : ShardKv
serving =
    group (pos 2) ((0, record { kv = []; status = normal }) ∷ []) ((7, done) ∷ [])
      (all_at 2 (pos 2)) (all_at 1 (pos 1))

abbrev put_late : Op
put_late = record { key = "d"; value = "2"; op_type = op_put; client_id = 7; seq_id = 3 }

abbrev answered : ShardKv × OpReply
answered = elim (apply_client_operation put_late serving) [
  | none ↦ (serving, record { value = ""; err = ok })
  | some p ↦ p
]

seen_no_effect_example :
    (answered.0 ≡ serving)
    × ((answered.1 ≡ stored_reply serving.duplicate_table 7) ⊎ (answered.1.err ≡ err_wrong_group))
unfolding key2shard lookup is_get run_commands run_command apply_client_operation
seen_no_effect_example =
    seen_no_effect put_late (config_change (all_at 5 (pos 2)) ∷ []) serving serving answered 3
      (done, refl, omega arith) (omega arith) refl refl refl

-- Group 1 has two servers, and the clerk takes the second for the leader.
abbrev clerk : Clerk
clerk = record {
  config = record {
    num = 1;
    shards = replicate n_shards (pos 1);
    groups = (pos 1, "x" ∷ "y" ∷ []) ∷ [];
  };
  leader_ids = (pos 1, 1) ∷ [];
  client_id = 7;
  seq_id = 0;
}

attempt-Ended_example :
    (leader_of (pos 1) clerk < 2
      → Ended ((attempt (λ e. e) put_append_final "a" (none ∷ some err_timeout ∷ []) clerk).1))
    × (2 ≤ leader_of (pos 1) clerk
        → (attempt (λ e. e) put_append_final "a" (none ∷ some err_timeout ∷ []) clerk).1 ≡ panics)
unfolding lookup gid_of key2shard verdict put_append_final
attempt-Ended_example =
    attempt-Ended (λ e. e) put_append_final "a" ("x" ∷ "y" ∷ []) (none ∷ some err_timeout ∷ [])
      clerk refl (λ e. cc, ((λ e. cc), tt)) (omega arith)

-- Both calls fail, and the clerk is back at the server it began with.
round_ends : (attempt (λ e. e) put_append_final "a" (none ∷ some err_timeout ∷ []) clerk).1 ≡ asks
unfolding lookup insert gid_of key2shard verdict put_append_final attempt calls leader_of
    ensure_leader next_leader set_leader
round_ends = refl
