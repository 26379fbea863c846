-- ===== src/ShardKv/Configs.antt =====
-- src/shardkv/conf_change.go: the statuses that a new configuration gives.
use mathlib.Core.Path.{subst}
use nexus_mind.Prelude.{
  ℕ, zero, suc, ◌+◌, ◌≤◌, ◌<◌, ◌≡◌, refl, ◌≢◌, ◌⊎◌, Option, none, some, List, [], ◌∷◌, arith, sym,
  ap, ◌∙◌, length, get_elem?, some-inj,
}
use nexus_mind.Prelude.Int.{ℤ, pos, ==ℤ_iff}
use nexus_mind.Prelude.Dict.{Dict, nat_eq, lookup, insert, lookup-insert}
use nexus_mind.ShardCtrler.Common.{n_shards, Config}
use nexus_mind.ShardKv.Common.{move_in, move_out, ok, OpReply, ShardStatus, move_out}
use nexus_mind.ShardKv.Shards.{Shard}
use nexus_mind.ShardKv.Server.{ShardKv}
use nexus_mind.ShardKv.Migration.{new_status, set_status, set_statuses, apply_new_config}

-- A shard whose status is set, if there is one to set.
abbrev pub restatus : Option ShardStatus → Option Shard → Option Shard
restatus none s = s
restatus (some t) none = none
restatus (some t) (some s) = some (record s { status = t })

set_status_lem :
    (t : Option ShardStatus) (i : ℕ) (s : Shard) (shards : Dict ℕ Shard)
    → lookup i shards ≡ some s
    → (r : Dict ℕ Shard) × (set_status t i shards ≡ some r)
      × (lookup i r ≡ restatus t (lookup i shards))
      × ((j : ℕ) → i ≢ j → lookup j r ≡ lookup j shards)
unfolding set_status
set_status_lem none i s shards e = (shards, refl, refl, λ j n. refl)
set_status_lem (some t) i s shards e =
    let s' : Shard = record s { status = t } in
    (
      insert i s' shards,
      rw e refl,
      ground (arith, lookup-insert i i s' shards, nat_eq.beq_iff i i),
      λ j n. ground (arith, lookup-insert i j s' shards, nat_eq.beq_iff i j),
    )

abbrev Restatused : ℤ → List ℤ → List ℤ → ℕ → Dict ℕ Shard → Dict ℕ Shard → Type 0
Restatused gid old new i shards r =
    (k : ℕ) (o n : ℤ)
    → get_elem? old k ≡ some o
    → get_elem? new k ≡ some n
    → lookup (i + k) r ≡ restatus (new_status gid o n) (lookup (i + k) shards)

Restatused-next :
    (gid o n : ℤ) (old new : List ℤ) (i : ℕ) (shards r q : Dict ℕ Shard)
    → lookup i r ≡ restatus (new_status gid o n) (lookup i shards)
    → ((j : ℕ) → i ≢ j → lookup j r ≡ lookup j shards)
    → lookup i q ≡ lookup i r
    → Restatused gid old new (suc i) r q
    → Restatused gid (o ∷ old) (n ∷ new) i shards q
Restatused-next gid o n old new i shards r q at_i off_i low high zero a b x y =
    let z : i + 0 ≡ i = omega arith in
    let xa : o ≡ a = some-inj o a x in
    let yb : n ≡ b = some-inj n b y in rw (z, ← xa, ← yb) (low ∙ at_i)
Restatused-next gid o n old new i shards r q at_i off_i low high (suc k) a b x y =
    let z : i + suc k ≡ suc i + k = omega arith in
    let w = off_i (suc i + k) (λ e. absurd (omega arith)) in
    rw z (high k a b x y ∙ ap (restatus (new_status gid a b)) w)

set_statuses_lem :
    (gid : ℤ) (old new : List ℤ) (i : ℕ) (shards : Dict ℕ Shard)
    → length old ≡ length new
    → ((j : ℕ) → i ≤ j → j < i + length old → (s : Shard) × (lookup j shards ≡ some s))
    → (r : Dict ℕ Shard) × (set_statuses gid old new i shards ≡ some r)
      × ((j : ℕ) → j < i → lookup j r ≡ lookup j shards)
      × Restatused gid old new i shards r
unfolding set_statuses
set_statuses_lem gid [] new i shards len there =
    (shards, refl, λ j l. refl, λ k o n e f. absurd (ground arith))
set_statuses_lem gid (o ∷ old) [] i shards len there = absurd (omega arith)
set_statuses_lem gid (o ∷ old) (n ∷ new) i shards len there =
    let (s, e) = there i (omega arith) (omega arith) in
    let (r, f, at_i, off_i) = set_status_lem (new_status gid o n) i s shards e in
    let (q, g, low, high) = set_statuses_lem gid old new (suc i) r (omega arith) (λ j l h.
      let (t, u) = there j (omega arith) (omega arith) in
      (t, off_i j (λ z. absurd (omega arith)) ∙ u)) in
    (
      q,
      rw f g,
      λ j l. low j (omega arith) ∙ off_i j (λ z. absurd (omega arith)),
      Restatused-next gid o n old new i shards r q at_i off_i (low i (omega arith)) high,
    )

zero_plus : (i : ℕ) → 0 + i ≡ i
zero_plus i = omega arith

-- Which status the two groups give: the statuses of a shard that comes and of one that goes.
abbrev pub Statuses : ℤ → ℤ → ℤ → Option Shard → Option Shard → Type 0
Statuses gid o n old new =
    (s : Shard)
    → old ≡ some s
    → (o ≢ gid → n ≡ gid → o ≢ pos 0 → new ≡ some (record s { status = move_in }))
      × (o ≡ gid → n ≢ gid → n ≢ pos 0 → new ≡ some (record s { status = move_out }))
      × ((o ≡ n) ⊎ (((o ≢ gid) × (n ≢ gid)) ⊎ ((o ≡ pos 0) ⊎ (n ≡ pos 0))) → new ≡ some s)

restatus-Statuses :
    (gid o n : ℤ) (old new : Option Shard)
    → gid ≢ pos 0
    → new ≡ restatus (new_status gid o n) old
    → Statuses gid o n old new
unfolding new_status
restatus-Statuses gid o n old new nz e s f = (
  λ a b c. ground (arith, ==ℤ_iff o gid, ==ℤ_iff n gid, ==ℤ_iff o (pos 0)),
  λ a b c. ground (arith, ==ℤ_iff o gid, ==ℤ_iff n gid, ==ℤ_iff n (pos 0)),
  λ a. ground (arith, ==ℤ_iff o gid, ==ℤ_iff n gid, ==ℤ_iff o (pos 0), ==ℤ_iff n (pos 0)),
)

-- A new configuration with the next number is taken, if all shards are there. A shard that the
-- group gets from another one is then to move in, one that another group gets is to move out, and
-- one that stays, is neither before nor after the group's, or is of group 0 before or after, is as
-- it was.
pub apply_new_config_lem :
    (config : Config) (kv : ShardKv)
    → config.num ≡ kv.current_config.num + 1
    → length kv.current_config.shards ≡ n_shards
    → length config.shards ≡ n_shards
    → kv.gid ≢ pos 0
    → ((i : ℕ) → i < n_shards → (s : Shard) × (lookup i kv.shards ≡ some s))
    → (kv' : ShardKv) × (reply : OpReply) × (apply_new_config config kv ≡ some (kv', reply))
      × (reply.err ≡ ok)
      × (kv'.current_config ≡ config)
      × (kv'.prev_config ≡ kv.current_config)
      × ((i : ℕ) (o n : ℤ)
          → get_elem? kv.current_config.shards i ≡ some o
          → get_elem? config.shards i ≡ some n
          → Statuses kv.gid o n (lookup i kv.shards) (lookup i kv'.shards))
unfolding apply_new_config
apply_new_config_lem config kv next l l' nz there =
    let (r, e, _, h) =
      set_statuses_lem kv.gid kv.current_config.shards config.shards 0 kv.shards (l ∙ sym l')
        (λ j a b. there j (omega arith)) in
    (
      record kv { shards = r; prev_config = kv.current_config; current_config = config },
      record { value = ""; err = ok },
      ground (arith, nat_eq.beq_iff (kv.current_config.num + 1) config.num),
      refl,
      refl,
      refl,
      λ i o n x y. restatus-Statuses kv.gid o n (lookup i kv.shards) (lookup i r) nz (
          subst (λ j. lookup j r ≡ restatus (new_status kv.gid o n) (lookup j kv.shards))
            (zero_plus i) (h i o n x y)),
    )
