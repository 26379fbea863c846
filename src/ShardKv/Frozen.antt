-- ===== src/ShardKv/Frozen.antt =====
-- src/shardkv/task.go: what commands leave alone.

use nexus_mind.Prelude.{
  ℕ, ◌+◌, ◌≡◌, ◌≢◌, ◌⊎◌, inl, inr, true, false, Option, some, List, [], ◌∷◌, arith, sym, ap, ◌∙◌,
  Bool-cases, ◌>>=◌, get_elem?, >>=-eq-some, Option-cases,
}
use nexus_mind.Prelude.Int.{==ℤ_iff}
use nexus_mind.Prelude.Dict.{nat_eq, lookup, lookup-insert}
use nexus_mind.ShardKv.Common.{
  move_in, move_out, Op, OpReply, move_out, RaftCommand, client_operation, config_change,
  shard_migration, shard_gc, key2shard,
}
use nexus_mind.ShardKv.Shards.{Shard}
use nexus_mind.ShardKv.Server.{ShardKv, match_group, apply_to_shard, apply_to_state_machine}
use nexus_mind.ShardKv.Migration.{}
use nexus_mind.ShardKv.Task.{apply_client_operation, run_command}

-- The shard is on its way, or is another group's.
abbrev pub IsFrozen : ℕ → ShardKv → Type 0
IsFrozen i kv =
    (s : Shard) × (lookup i kv.shards ≡ some s)
    × (((s.status ≡ move_in) ⊎ (s.status ≡ move_out))
        ⊎ (get_elem? kv.current_config.shards i ≢ some kv.gid))

-- Clients' operations, one after the other.
unfoldable pub run_clients : List Op → ShardKv → Option ShardKv
run_clients [] kv = some kv
run_clients (op ∷ ops) kv = (apply_client_operation op kv >>= λ p. run_clients ops p.0)

not_mine :
    (op : Op) (kv : ShardKv) (i : ℕ)
    → IsFrozen i kv
    → key2shard op.key ≡ i
    → match_group op.key kv ≢ some true
unfolding match_group
not_mine op kv i (s, e, f) k h =
    let e' : lookup (key2shard op.key) kv.shards ≡ some s = ap (λ j. lookup j kv.shards) k ∙ e in
    let g = ap (λ j. get_elem? kv.current_config.shards j) k in
    elim f [
      | inl still ↦ ground arith
      | inr other ↦ elim (Option-cases (get_elem? kv.current_config.shards (key2shard op.key))) [
        | inl n ↦ ground arith
        | inr (x, q) ↦ other (sym g ∙ q ∙ ap some (ground (arith, ==ℤ_iff x kv.gid)))
      ]
    ]

abbrev SameAt : ℕ → ShardKv → ShardKv → Type 0
SameAt i kv kv' =
    (lookup i kv'.shards ≡ lookup i kv.shards)
    × (kv'.current_config ≡ kv.current_config)
    × (kv'.gid ≡ kv.gid)

apply_to_state_machine-other :
    (op : Op) (k i : ℕ) (kv : ShardKv) (p : ShardKv × OpReply)
    → nat_eq.beq k i ≡ false
    → apply_to_state_machine op k kv ≡ some p
    → SameAt i kv p.0
unfolding apply_to_state_machine
apply_to_state_machine-other op k i kv p n h = elim (Option-cases (lookup k kv.shards)) [
  | inl z ↦ absurd (ground arith)
  | inr (s, e) ↦ ground (arith, lookup-insert k i (apply_to_shard op s).0 kv.shards)
]

apply_client_operation-SameAt :
    (op : Op) (kv : ShardKv) (p : ShardKv × OpReply) (i : ℕ)
    → IsFrozen i kv
    → apply_client_operation op kv ≡ some p
    → SameAt i kv p.0
unfolding apply_client_operation
apply_client_operation-SameAt op kv p i f h = elim (Bool-cases (nat_eq.beq (key2shard op.key) i)) [
  | inl same ↦
      let n = not_mine op kv i f ((nat_eq.beq_iff (key2shard op.key) i).0 same) in ground arith
  | inr other ↦ elim (Option-cases (apply_to_state_machine op (key2shard op.key) kv)) [
    | inl z ↦ ground arith
    | inr (w, e) ↦
        let o = apply_to_state_machine-other op (key2shard op.key) i kv w other e in ground arith
  ]
]

SameAt-IsFrozen : (i : ℕ) (kv kv' : ShardKv) → SameAt i kv kv' → IsFrozen i kv → IsFrozen i kv'
SameAt-IsFrozen i kv kv' (a, b, c) (s, e, inl f) = (s, a ∙ e, inl f)
SameAt-IsFrozen i kv kv' (a, b, c) (s, e, inr f) =
    (s, a ∙ e, inr (λ z. f (ap (λ c. get_elem? c.shards i) (sym b) ∙ z ∙ ap some c)))

-- A shard that is on its way, or that the current configuration gives to another group, is not
-- changed by any sequence of clients' operations, nor is the configuration.
pub run_clients-frozen :
    (ops : List Op) (kv kv' : ShardKv) (i : ℕ)
    → IsFrozen i kv
    → run_clients ops kv ≡ some kv'
    → (lookup i kv'.shards ≡ lookup i kv.shards) × (kv'.current_config ≡ kv.current_config)
unfolding run_clients
run_clients-frozen [] kv kv' i f h = ground arith
run_clients-frozen (op ∷ ops) kv kv' i f h =
    let (p, e, g) = >>=-eq-some (apply_client_operation op kv) (λ p. run_clients ops p.0) h in
    let st = apply_client_operation-SameAt op kv p i f e in
    let (a, b) = run_clients-frozen ops p.0 kv' i (SameAt-IsFrozen i kv p.0 st f) g in
    (a ∙ st.0, b ∙ st.1)

-- A command of the log leaves the two configurations of a group as they are, or moves on to a
-- configuration with the next number and keeps the one before as the previous one.
pub config_next :
    (command : RaftCommand) (kv kv' : ShardKv) (reply : OpReply)
    → run_command command kv ≡ some (kv', reply)
    → ((kv'.current_config ≡ kv.current_config) × (kv'.prev_config ≡ kv.prev_config))
      ⊎ ((kv'.current_config.num ≡ kv.current_config.num + 1)
          × (kv'.prev_config ≡ kv.current_config))
unfolding run_command
config_next (client_operation op) kv kv' reply h = ground arith
config_next (config_change config) kv kv' reply h = ground arith
config_next (shard_migration moved) kv kv' reply h = ground arith
config_next (shard_gc info) kv kv' reply h = ground arith
