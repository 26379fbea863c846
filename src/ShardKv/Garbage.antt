-- ===== src/ShardKv/Garbage.antt =====
-- src/shardkv/conf_change.go: the clean-up after a migration.

use nexus_mind.Prelude.{
  ℕ, ◌≡◌, refl, ◌⊎◌, inl, inr, true, false, Option, none, some, List, [], ◌∷◌, arith, sym, ap, ◌∙◌,
  if◌then◌else◌, Bool-cases, some-inj, Option-cases,
}
use nexus_mind.Prelude.Dict.{Dict, nat_eq, lookup, insert, lookup-insert}
use nexus_mind.ShardKv.Common.{ok, OpReply, normal, move_out, gc, ShardOperationArgs}
use nexus_mind.ShardKv.Shards.{Shard, new_shard}
use nexus_mind.ShardKv.Server.{ShardKv}
use nexus_mind.ShardKv.Migration.{collect_garbage, apply_shard_gc}
use nexus_mind.ShardKv.Handover.{mem, Each}

-- A shard after it is cleaned up.
abbrev pub cleaned : Option Shard → Option Shard
cleaned none = none
cleaned (some s) = elim s.status [ gc ↦ some (record s { status = normal }) | _ ↦ some new_shard ]

-- The list names no shard twice.
abbrev pub AllDistinct : List ℕ → Type 0
AllDistinct [] = Unit {0}
AllDistinct (i ∷ ids) = (mem i ids ≡ false) × AllDistinct ids

-- The shard is to be cleaned up, or was given away.
abbrev pub IsGarbage : Shard → Type 0
IsGarbage s = (s.status ≡ gc) ⊎ (s.status ≡ move_out)

collect_garbage-next :
    (i : ℕ) (ids : List ℕ) (s s' : Shard) (shards r : Dict ℕ Shard)
    → lookup i shards ≡ some s
    → IsGarbage s
    → cleaned (some s) ≡ some s'
    → collect_garbage ids (insert i s' shards) ≡ some r
    → collect_garbage (i ∷ ids) shards ≡ some r
unfolding collect_garbage
collect_garbage-next i ids s s' shards r e (inl t) c f =
    let same = some-inj _ s' (rw t at c) in rw (e, t, same) f
collect_garbage-next i ids s s' shards r e (inr t) c f =
    let same = some-inj _ s' (rw t at c) in rw (e, t, same) f

cleaned-some : (s : Shard) → (s' : Shard) × (cleaned (some s) ≡ some s')
cleaned-some s = elim (Option-cases (cleaned (some s))) [
  | inl n ↦ absurd (ground arith)
  | inr x ↦ x
]

mem-other : (i j : ℕ) (ids : List ℕ) → mem i ids ≡ false → mem j ids ≡ true → nat_eq.beq i j ≡ false
mem-other i j ids n m = elim (Bool-cases (nat_eq.beq i j)) [
  | inl same ↦ let p = ap (λ k. mem k ids) ((nat_eq.beq_iff i j).0 same) in absurd (ground arith)
  | inr other ↦ other
]

cleaned-next :
    (i j : ℕ) (ids : List ℕ) (s s' : Shard) (shards : Dict ℕ Shard)
    → mem i ids ≡ false
    → lookup i shards ≡ some s
    → cleaned (some s) ≡ some s'
    → (if mem j ids then cleaned (lookup j (insert i s' shards)) else lookup j (insert i s' shards))
      ≡ (if mem j (i ∷ ids) then cleaned (lookup j shards) else lookup j shards)
cleaned-next i j ids s s' shards n e c = elim (Bool-cases (nat_eq.beq i j)) [
  | inl same ↦
      let p = (nat_eq.beq_iff i j).0 same in
      let m = ap (λ k. mem k ids) (sym p) ∙ n in
      let l = ap (λ k. lookup k shards) (sym p) ∙ e in
      rw (m, l, lookup-insert i j s' shards, same) (sym c)
  | inr other ↦ rw (lookup-insert i j s' shards, other) refl
]

collect_garbage_lem :
    (ids : List ℕ) (shards : Dict ℕ Shard)
    → AllDistinct ids
    → Each IsGarbage ids shards
    → (r : Dict ℕ Shard) × (collect_garbage ids shards ≡ some r)
      × ((j : ℕ) → lookup j r ≡ (if mem j ids then cleaned (lookup j shards) else lookup j shards))
unfolding collect_garbage
collect_garbage_lem [] shards d g = (shards, refl, λ j. refl)
collect_garbage_lem (i ∷ ids) shards d g =
    let (s, e, t) = g i (ground (arith, nat_eq.beq_iff i i)) in
    let (s', c) = cleaned-some s in
    let (r, f, h) = collect_garbage_lem ids (insert i s' shards) d.1 (λ j m.
      let (u, v, w) = g j (ground arith) in
      (u, ground (arith, lookup-insert i j s' shards, mem-other i j ids d.0 m), w)) in
    (
      r,
      collect_garbage-next i ids s s' shards r e t c f,
      λ j. h j ∙ cleaned-next i j ids s s' shards d.0 e c,
    )

-- A clean-up under the group's own configuration of distinct shards, which all wait for it or were
-- given away: the former serve on with their keys, the latter are empty, and no other shard
-- changes.
pub apply_shard_gc_lem :
    (info : ShardOperationArgs) (kv : ShardKv)
    → info.config_num ≡ kv.current_config.num
    → AllDistinct info.shard_ids
    → Each IsGarbage info.shard_ids kv.shards
    → (kv' : ShardKv) × (reply : OpReply) × (apply_shard_gc info kv ≡ some (kv', reply))
      × (reply.err ≡ ok)
      × ((i : ℕ)
          → lookup i kv'.shards
            ≡ (if mem i info.shard_ids then cleaned (lookup i kv.shards) else lookup i kv.shards))
unfolding apply_shard_gc
apply_shard_gc_lem info kv same d g =
    let (r, e, h) = collect_garbage_lem info.shard_ids kv.shards d g in
    (
      record kv { shards = r },
      record { value = ""; err = ok },
      ground (arith, nat_eq.beq_iff info.config_num kv.current_config.num),
      refl,
      h,
    )
