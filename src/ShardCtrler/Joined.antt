-- ===== src/ShardCtrler/Joined.antt =====
-- src/shardctrler/state_machine.go: the array and the groups of a new configuration.
use Prim.Native.String.{String}
use nexus_mind.Prelude.{
  ℕ, ◌≡◌, refl, inl, inr, List, [], ◌∷◌, Option, Option-cases, none, some, arith, ◌∙◌, length,
  length-set, set, replicate,
}
use nexus_mind.Prelude.Int.{ℤ, pos, ==ℤ_iff}
use nexus_mind.Prelude.Dict.{Dict, lookup, insert, int_eq, lookup-insert}
use nexus_mind.ShardCtrler.Common.{n_shards}
use nexus_mind.ShardCtrler.Balance.{Table, write_shards, write_table, shards_array}
use nexus_mind.ShardCtrler.StateMachine.{copy_groups, add_groups}

length-write_shards :
    (g : ℤ) (ss : List ℕ) (out : List ℤ) → length (write_shards g ss out) ≡ length out
unfolding write_shards
length-write_shards g [] out = refl
length-write_shards g (s ∷ ss) out = length-write_shards g ss (set out s g) ∙ length-set out s g

length-write_table : (m : Table) (out : List ℤ) → length (write_table m out) ≡ length out
unfolding write_table
length-write_table [] out = refl
length-write_table ((g, l) ∷ m) out =
    length-write_table m (write_shards g l out) ∙ length-write_shards g l out

pub length-shards_array : (m : Table) → length (shards_array m) ≡ n_shards
unfolding shards_array
length-shards_array m = length-write_table m (replicate n_shards (pos 0))

pub lookup-copy_groups : (g : ℤ) (m : Dict ℤ (List String)) → lookup g (copy_groups m) ≡ lookup g m
unfolding copy_groups lookup
lookup-copy_groups g [] = refl
lookup-copy_groups g ((h, s) ∷ m) =
    ground (arith, lookup-insert h g s (copy_groups m), lookup-copy_groups g m)

-- The servers of a group after a join: a group that is there keeps its own.
abbrev pub joined : Dict ℤ (List String) → Dict ℤ (List String) → ℤ → Option (List String)
joined new m g = elim (lookup g m) [ some s ↦ some s | none ↦ lookup g new ]

pub add_groups-joined :
    (g : ℤ) (new m : Dict ℤ (List String)) → lookup g (add_groups new m) ≡ joined new m g
unfolding add_groups lookup
add_groups-joined g [] m = ground (arith, Option-cases (lookup g m))
add_groups-joined g ((h, s) ∷ new) m = elim (Option-cases (lookup h m)) [
  | inl e ↦ ground (
    arith,
    e,
    add_groups-joined g new (insert h s m),
    lookup-insert h g s m,
    ==ℤ_iff h g,
    Option-cases (lookup g m),
  )
  | inr (t, e) ↦
      ground (arith, e, add_groups-joined g new m, ==ℤ_iff h g, Option-cases (lookup g m))
]
