-- ===== src/ShardCtrler/StateMachine.antt =====
-- src/shardctrler/state_machine.go: the configurations, one after the other, and the commands that
-- add one. Go iterates over a map in any order; here it is the order of the list, and what the
-- commands compute from a map does not depend on it. `none` is a panic.
use Prim.Native.String.{String}
use nexus_mind.Prelude.{
  ℕ, ◌-◌, List, [], ◌∷◌, ◌++◌, Option, none, some, ltb, leb, ◌==◌, if◌then◌else◌, ◌>>=◌, length,
  get_elem?, set, replicate,
}
use nexus_mind.Prelude.Int.{ℤ, pos, negsuc}
use nexus_mind.Prelude.Dict.{Dict, int_eq, lookup, insert, erase}
use nexus_mind.ShardCtrler.Common.{n_shards, Config, default_config}
use nexus_mind.ShardCtrler.Balance.{
  Table, shards_of, gid_with_min_shards, rebalance, table_of, shards_array,
}

unfoldable pub new_ctrler_state_machine : List Config
unfolding default_config
new_ctrler_state_machine = default_config ∷ []

unfoldable pub last_config : List Config → Option Config
last_config configs = get_elem? configs (length configs - 1)

-- The latest configuration for a number that is negative or not there yet.
unfoldable pub query : ℤ → List Config → Option Config
unfolding last_config
query (negsuc n) configs = last_config configs
query (pos n) configs = if leb (length configs) n then last_config configs else get_elem? configs n

-- `copyGroups`: a new map with the same groups.
unfoldable pub copy_groups : Dict ℤ (List String) → Dict ℤ (List String)
copy_groups [] = []
copy_groups ((g, s) ∷ m) = insert g s (copy_groups m)

-- The groups that are not there yet are added.
unfoldable pub add_groups : Dict ℤ (List String) → Dict ℤ (List String) → Dict ℤ (List String)
add_groups [] m = m
add_groups ((g, s) ∷ new) m =
    add_groups new (elim (lookup g m) [ none ↦ insert g s m | some _ ↦ m ])

-- Enough rounds for the loop of `Join` on the `n_shards` shards.
abbrev pub join_fuel : ℕ
join_fuel = 221

unfoldable pub join : Dict ℤ (List String) → List Config → Option (List Config)
unfolding last_config copy_groups add_groups table_of rebalance shards_array
join new configs = do
  c ← last_config configs
  groups ← some (add_groups new (copy_groups c.groups))
  m ← rebalance join_fuel (table_of groups c.shards)
  some (configs ++ record { num = length configs; shards = shards_array m; groups = groups } ∷ [])

-- Each group of the list is taken out of both maps, and its shards are put aside.
unfoldable pub remove_groups :
    List ℤ → Dict ℤ (List String) → Table → List ℕ → Dict ℤ (List String) × Table × List ℕ
unfolding shards_of
remove_groups [] groups m aside = (groups, m, aside)
remove_groups (g ∷ gids) groups m aside =
    remove_groups gids (erase g groups) (erase g m) (aside ++ shards_of g m)

-- Each shard that was put aside goes to the emptiest group.
unfoldable pub reassign : List ℕ → Table → Table
unfolding gid_with_min_shards shards_of
reassign [] m = m
reassign (s ∷ ss) m =
    let g = gid_with_min_shards m in reassign ss (insert g (shards_of g m ++ s ∷ []) m)

unfoldable pub leave : List ℤ → List Config → Option (List Config)
unfolding last_config copy_groups table_of remove_groups reassign shards_array
leave gids configs = do
  c ← last_config configs
  groups ← some (copy_groups c.groups)
  (groups', m, aside) ← some (remove_groups gids groups (table_of groups c.shards) [])
  some (
      configs
      ++ record {
        num = length configs;
        shards =
            if length groups' == 0
            then replicate n_shards (pos 0)
            else shards_array (reassign aside m);
        groups = groups';
      }
        ∷ [])

-- The shard must be an index of the array.
unfoldable pub move_to : ℤ → ℤ → Config → ℕ → Option Config
unfolding copy_groups
move_to (negsuc s) gid c num = none
move_to (pos s) gid c num =
    if ltb s n_shards
    then some (record { num = num; shards = set c.shards s gid; groups = copy_groups c.groups })
    else none

unfoldable pub move : ℤ → ℤ → List Config → Option (List Config)
unfolding last_config move_to
move shard gid configs = do
  c ← last_config configs
  c' ← move_to shard gid c (length configs)
  some (configs ++ c' ∷ [])
