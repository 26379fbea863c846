-- ===== src/ShardCtrler/Balance.antt =====
-- src/shardctrler/state_machine.go: the table from groups to their shards, and the loop of `Join`
-- that moves one shard at a time from the fullest group to the emptiest.
pub mod Sums
pub mod Extremes
pub mod Places
pub mod Counts
pub mod Keys
pub mod Ends
use nexus_mind.Prelude.{
  ℕ, zero, suc, ◌+◌, ◌*◌, Bool, true, false, not, ◌&&◌, List, [], ◌∷◌, ◌++◌, Option, none, some,
  ltb, leb, ◌==◌, if◌then◌else◌, ◌>>=◌, length, set, replicate,
}
use nexus_mind.Prelude.Int.{ℤ, pos, minus_one, ◌==ℤ◌, leb_ℤ}
use nexus_mind.Prelude.Dict.{Dict, int_eq, lookup, insert}
use nexus_mind.ShardCtrler.Common.{n_shards}

abbrev pub Table : Type 0
Table = Dict ℤ (List ℕ)

-- A missing key reads as no shards.
unfoldable pub shards_of : ℤ → Table → List ℕ
shards_of g m = elim (lookup g m) [ none ↦ [] | some l ↦ l ]

unfoldable pub gids_of : {V : Type 0} → Dict ℤ V → List ℤ
gids_of [] = []
gids_of ((g, v) ∷ m) = g ∷ gids_of m

unfoldable pub insert_gid : ℤ → List ℤ → List ℤ
insert_gid g [] = g ∷ []
insert_gid g (h ∷ hs) = if leb_ℤ g h then g ∷ h ∷ hs else h ∷ insert_gid g hs

-- `sort.Ints`.
unfoldable pub sort_gids : List ℤ → List ℤ
unfolding insert_gid
sort_gids [] = []
sort_gids (g ∷ gs) = insert_gid g (sort_gids gs)

-- The loop of `gidWithMaxShards`, with `maxShards` plus one, which starts at 0.
unfoldable pub max_from : Table → List ℤ → ℤ → ℕ → ℤ
unfolding shards_of
max_from m [] best most = best
max_from m (g ∷ gs) best most =
    let n = length (shards_of g m) + 1 in
    max_from m gs (if ltb most n then g else best) (if ltb most n then n else most)

unfoldable pub gid_with_max_shards : Table → ℤ
unfolding shards_of sort_gids gids_of max_from
gid_with_max_shards m =
    if ltb 0 (length (shards_of (pos 0) m))
    then pos 0
    else max_from m (sort_gids (gids_of m)) minus_one 0

-- The loop of `gidWithMinShards`; group 0 is passed over.
unfoldable pub min_from : Table → List ℤ → ℤ → ℕ → ℤ
unfolding shards_of
min_from m [] best least = best
min_from m (g ∷ gs) best least =
    let n = length (shards_of g m) in
    let better = not (g ==ℤ pos 0) && ltb n least in
    min_from m gs (if better then g else best) (if better then n else least)

unfoldable pub gid_with_min_shards : Table → ℤ
unfolding sort_gids gids_of min_from
gid_with_min_shards m = min_from m (sort_gids (gids_of m)) minus_one (n_shards + 1)

-- The first shard of group `from` becomes the last of group `to`; it panics where there is none.
unfoldable pub move_shard : ℤ → ℤ → Table → Option Table
unfolding shards_of
move_shard from to m = elim (shards_of from m) [
  | [] ↦ none
  | s ∷ ss ↦
      let m' = insert to (shards_of to m ++ s ∷ []) m in
      elim (shards_of from m') [ [] ↦ none | t ∷ ts ↦ some (insert from ts m') ]
]

-- `none` is a panic, or the fuel that ran out.
unfoldable pub rebalance : ℕ → Table → Option Table
unfolding gid_with_max_shards gid_with_min_shards shards_of move_shard
rebalance zero m = none
rebalance (suc fuel) m =
    let from = gid_with_max_shards m in
    let to = gid_with_min_shards m in
    elim (not (from ==ℤ pos 0) && leb (length (shards_of from m)) (length (shards_of to m) + 1)) [
      | true ↦ some m
      | false ↦ (move_shard from to m >>= λ m'. rebalance fuel m')
    ]

-- Every group of the configuration with no shards, then each shard at its group.
unfoldable pub empty_table : List ℤ → Table → Table
empty_table [] m = m
empty_table (g ∷ gs) m = empty_table gs (insert g [] m)

unfoldable pub fill_table : List ℤ → ℕ → Table → Table
unfolding shards_of
fill_table [] shard m = m
fill_table (g ∷ gs) shard m = fill_table gs (shard + 1) (insert g (shards_of g m ++ shard ∷ []) m)

unfoldable pub table_of : {V : Type 0} → Dict ℤ V → List ℤ → Table
unfolding gids_of empty_table fill_table
table_of groups shards = fill_table shards 0 (empty_table (gids_of groups) [])

unfoldable pub write_shards : ℤ → List ℕ → List ℤ → List ℤ
write_shards g [] out = out
write_shards g (s ∷ ss) out = write_shards g ss (set out s g)

-- The array of the new configuration: the group of each shard, 0 where there is none.
unfoldable pub write_table : Table → List ℤ → List ℤ
unfolding write_shards
write_table [] out = out
write_table ((g, l) ∷ m) out = write_table m (write_shards g l out)

unfoldable pub shards_array : Table → List ℤ
unfolding write_table
shards_array m = write_table m (replicate n_shards (pos 0))
