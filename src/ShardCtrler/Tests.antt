-- ===== src/ShardCtrler/Tests.antt =====
-- src/shardctrler/: the theorems at small histories.
use Prim.Native.String.{String}
use nexus_mind.Prelude.{
  ℕ, ◌+◌, ◌≤◌, ◌<◌, ◌≡◌, refl, inl, inr, ◌>>=◌, none, some, List, [], ◌∷◌, ◌++◌, arith, length,
  replicate,
}
use nexus_mind.Prelude.Int.{ℤ, pos, negsuc, minus_one}
use nexus_mind.Prelude.Dict.{Dict, int_eq, lookup, insert}
use nexus_mind.ShardCtrler.Common.{n_shards, Config, default_config, Op, OpReply}
use nexus_mind.ShardCtrler.Balance.{move_shard, rebalance}
use nexus_mind.ShardCtrler.Balance.Ends.{Balanced, HeldBefore}
use nexus_mind.ShardCtrler.StateMachine.{
  new_ctrler_state_machine, last_config, query, join, leave, move,
}
use nexus_mind.ShardCtrler.Joined.{joined}
use nexus_mind.ShardCtrler.History.{
  IsHistory, Grows, join-Balanced, changes_grow, query_lem, join_no_groups,
}
use nexus_mind.ShardCtrler.Server.{
  ShardCtrler, start_server, apply_op, join_op, move_op, query_op, stored_reply, is_query,
}
use nexus_mind.ShardCtrler.Once.{Extends, run_ops, run_ops_total, repeat_no_effect}

abbrev one_group : Dict ℤ (List String)
one_group = (pos 1, "a" ∷ []) ∷ []

abbrev two_groups : Dict ℤ (List String)
two_groups = (pos 1, "a" ∷ []) ∷ (pos 2, "b" ∷ []) ∷ []

abbrev first : List Config
first = default_config ∷ []

first-IsHistory : IsHistory first
unfolding default_config
first-IsHistory = (omega arith, (refl, refl, tt))

-- Ten shards go half and half to two groups.
join_two :
    (join two_groups first >>= λ cs. query minus_one cs >>= λ c. some c.shards)
    ≡ some (pos 1 ∷ pos 2 ∷ pos 1 ∷ pos 2 ∷ pos 1 ∷ pos 2 ∷ pos 1 ∷ pos 2 ∷ pos 1 ∷ pos 2 ∷ [])
unfolding join query default_config insert lookup rebalance move_shard
join_two = refl

join-Balanced_example :
    (c c' : Config) × (last_config first ≡ some c)
    × (join two_groups first ≡ some (first ++ c' ∷ []))
    × (c'.num ≡ 1)
    × ((g : ℤ) → lookup g c'.groups ≡ joined two_groups c.groups g)
    × (length c'.shards ≡ n_shards)
    × Balanced c'.groups c'.shards
    × HeldBefore c'.groups c.shards c'.shards
join-Balanced_example = join-Balanced two_groups first first-IsHistory

changes_grow_example :
    ((a : List Config) × (join one_group first ≡ some a) × Grows first a × IsHistory a)
    × ((b : List Config) × (leave (pos 1 ∷ []) first ≡ some b) × Grows first b × IsHistory b)
    × ((s : ℕ)
        → s < n_shards
        → (d : List Config) × (move (pos s) (pos 1) first ≡ some d) × Grows first d × IsHistory d)
    × ((s : ℕ) → n_shards ≤ s → move (pos s) (pos 1) first ≡ none)
    × ((s : ℕ) → move (negsuc s) (pos 1) first ≡ none)
changes_grow_example = changes_grow one_group (pos 1 ∷ []) (pos 1) first first-IsHistory

query_lem_example :
    ((n : ℕ) → n < 1 → (c : Config) × (query (pos n) first ≡ some c) × (c.num ≡ n))
    × ((n : ℕ) → 1 ≤ n → (c : Config) × (query (pos n) first ≡ some c) × (c.num + 1 ≡ 1))
    × ((n : ℕ) → (c : Config) × (query (negsuc n) first ≡ some c) × (c.num + 1 ≡ 1))
query_lem_example = query_lem first first-IsHistory

join_no_groups_example :
    join [] first
    ≡ some (first ++ record { num = 1; shards = replicate n_shards minus_one; groups = [] } ∷ [])
unfolding last_config default_config
join_no_groups_example = join_no_groups first default_config refl refl refl

abbrev ops : List Op
ops = join_op two_groups 7 0 ∷ move_op (pos 3) (pos 1) 7 1 ∷ query_op minus_one ∷ []

run_ops_total_example :
    (sc' : ShardCtrler) × (run_ops ops start_server ≡ some sc')
    × IsHistory sc'.state_machine
    × Extends start_server.state_machine sc'.state_machine
unfolding start_server new_ctrler_state_machine default_config move_op join_op query_op
run_ops_total_example =
    run_ops_total ops start_server
      (inl (λ e. cc), (inr (3, refl, omega arith), (inl (λ e. cc), tt)))
      (omega arith, (refl, refl, tt))

abbrev start_first : ShardCtrler
start_first = record start_server { state_machine = first }

abbrev move_three : Op
move_three = move_op (pos 3) (pos 1) 7 0

abbrev moved : ShardCtrler × OpReply
moved = elim (apply_op move_three start_first) [
  | none ↦ (start_first, stored_reply [] 7)
  | some p ↦ p
]

repeat_no_effect_example :
    apply_op move_three (moved.0) ≡ some (moved.0, stored_reply moved.0.duplicate_table 7)
unfolding move_op is_query apply_op default_config move start_server run_ops lookup
repeat_no_effect_example =
    repeat_no_effect move_three move_three [] start_first (moved.0) moved refl refl refl
      (omega arith) refl refl
