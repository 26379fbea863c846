-- ===== src/ShardCtrler/History.antt =====
-- src/shardctrler/state_machine.go: the configurations are a numbered history that only grows.
use nexus_mind.Prelude.{
  ℕ, zero, suc, ◌+◌, ◌-◌, ◌≤◌, ◌<◌, ◌≡◌, refl, inl, inr, true, false, List, [], ◌∷◌, ◌++◌, none,
  some, arith, ◌∙◌, ltb, leb, ◌==◌, if◌then◌else◌, length, length-append, length-set,
  length-replicate, get_elem?, get_elem?_lt, set, replicate, Bool-cases,
}
use Prim.Native.String.{String}
use nexus_mind.Prelude.Int.{ℤ, pos, negsuc, minus_one}
use nexus_mind.Prelude.Dict.{Dict, lookup, insert, int_eq}
use nexus_mind.ShardCtrler.Common.{n_shards, Config}
use nexus_mind.ShardCtrler.Balance.{Table, rebalance, move_shard, table_of, shards_array}
use nexus_mind.ShardCtrler.Balance.Ends.{Balanced, HeldBefore, rebalance-table_of}
use nexus_mind.ShardCtrler.Joined.{
  length-shards_array, lookup-copy_groups, joined, add_groups-joined,
}
use nexus_mind.ShardCtrler.StateMachine.{
  last_config, query, copy_groups, add_groups, join_fuel, join, leave, remove_groups, reassign,
  move, move_to,
}

-- The configurations from `n` on have these numbers, and an entry for each shard.
abbrev NumberedFrom : ℕ → List Config → Type 0
NumberedFrom n [] = Unit {0}
NumberedFrom n (c ∷ cs) = (c.num ≡ n) × (length c.shards ≡ n_shards) × NumberedFrom (n + 1) cs

-- There is a first configuration, and each has its index for a number.
abbrev pub IsHistory : List Config → Type 0
IsHistory configs = (0 < length configs) × NumberedFrom 0 configs

NumberedFrom-append :
    (n : ℕ) (cs : List Config) (c : Config)
    → NumberedFrom n cs
    → c.num ≡ n + length cs
    → length c.shards ≡ n_shards
    → NumberedFrom n (cs ++ c ∷ [])
NumberedFrom-append n [] c h e l = (omega arith, l, tt)
NumberedFrom-append n (x ∷ cs) c h e l =
    (h.0, h.1, NumberedFrom-append (n + 1) cs c h.2 (omega arith) l)

get_elem?-NumberedFrom :
    (n : ℕ) (cs : List Config) (i : ℕ) (c : Config)
    → NumberedFrom n cs
    → get_elem? cs i ≡ some c
    → (c.num ≡ n + i) × (length c.shards ≡ n_shards)
get_elem?-NumberedFrom n [] i c h e = absurd (ground arith)
get_elem?-NumberedFrom n (x ∷ cs) zero c h e = ground arith
get_elem?-NumberedFrom n (x ∷ cs) (suc i) c h e =
    let r = get_elem?-NumberedFrom (n + 1) cs i c h.2 e in (omega arith, r.1)

-- The history grows by one configuration, which has the next number.
abbrev pub Grows : List Config → List Config → Type 0
Grows configs configs' =
    (c : Config) × (configs' ≡ configs ++ c ∷ [])
    × (c.num ≡ length configs)
    × (length c.shards ≡ n_shards)

Grows-IsHistory : (a b : List Config) → IsHistory a → Grows a b → IsHistory b
Grows-IsHistory a b h (c, e, n, l) =
    rw e (omega (arith, length-append a (c ∷ [])), NumberedFrom-append 0 a c h.1 (omega arith) l)

last_config_lem :
    (configs : List Config)
    → IsHistory configs
    → (c : Config) × (last_config configs ≡ some c)
      × (length c.shards ≡ n_shards)
      × (c.num + 1 ≡ length configs)
unfolding last_config
last_config_lem configs (p, h) =
    let (c, e) = get_elem?_lt configs (length configs - 1) (omega arith) in
    let (n, l) = get_elem?-NumberedFrom 0 configs (length configs - 1) c h e in
    (c, e, l, omega arith)

-- On a history of configurations, a join always returns, and adds one configuration with the next
-- number. In it the groups are those that were there, with their servers, and the new ones; none of
-- the shards is left to group 0; of the groups that are there or have a shard, no one has over one
-- shard more than another that is not group 0; and a group with a shard is one of the
-- configuration, or had a shard before, or is group -1.
pub join-Balanced :
    (new : Dict ℤ (List String)) (configs : List Config)
    → IsHistory configs
    → (c c' : Config) × (last_config configs ≡ some c)
      × (join new configs ≡ some (configs ++ c' ∷ []))
      × (c'.num ≡ length configs)
      × ((g : ℤ) → lookup g c'.groups ≡ joined new c.groups g)
      × (length c'.shards ≡ n_shards)
      × Balanced c'.groups c'.shards
      × HeldBefore c'.groups c.shards c'.shards
unfolding join
join-Balanced new configs h =
    let (c, e, l, _) = last_config_lem configs h in
    let groups = add_groups new (copy_groups c.groups) in
    let (m, r, shares, held) = rebalance-table_of groups c.shards l in
    (
      c,
      record { num = length configs; shards = shards_array m; groups = groups },
      e,
      rw (e, r) refl,
      refl,
      λ g.
          ground
            (arith, add_groups-joined g new (copy_groups c.groups), lookup-copy_groups g c.groups),
      length-shards_array m,
      shares,
      held,
    )

join-Grows :
    (new : Dict ℤ (List String)) (configs : List Config)
    → IsHistory configs
    → (a : List Config) × (join new configs ≡ some a) × Grows configs a
join-Grows new configs h =
    let (c, c', _, e, n, _, l, _, _) = join-Balanced new configs h in
    (configs ++ c' ∷ [], e, (c', refl, n, l))

leave-Grows :
    (gids : List ℤ) (configs : List Config)
    → IsHistory configs
    → (a : List Config) × (leave gids configs ≡ some a) × Grows configs a
unfolding leave
leave-Grows gids configs h =
    let (c, e, l, _) = last_config_lem configs h in
    let (groups, m, aside) =
      remove_groups gids (copy_groups c.groups) (table_of (copy_groups c.groups) c.shards) [] in
    (
      _,
      rw e refl,
      (
        record {
          num = length configs;
          shards =
              if length groups == 0
              then replicate n_shards (pos 0)
              else shards_array (reassign aside m);
          groups = groups;
        },
        refl,
        refl,
        elim (Bool-cases (length groups == 0)) [
          | inl z ↦ rw z (length-replicate n_shards (pos 0))
          | inr z ↦ rw z (length-shards_array (reassign aside m))
        ],
      ),
    )

move-Grows :
    (s : ℕ) (gid : ℤ) (configs : List Config)
    → IsHistory configs
    → s < n_shards
    → (a : List Config) × (move (pos s) gid configs ≡ some a) × Grows configs a
unfolding move move_to
move-Grows s gid configs h l =
    let (c, e, k, _) = last_config_lem configs h in
    let ok : ltb s n_shards ≡ true = ground arith in
    (
      _,
      rw (e, ok) refl,
      (
        record { num = length configs; shards = set c.shards s gid; groups = copy_groups c.groups },
        refl,
        refl,
        length-set c.shards s gid ∙ k,
      ),
    )

move-panics :
    (gid : ℤ) (configs : List Config)
    → ((s : ℕ) → n_shards ≤ s → move (pos s) gid configs ≡ none)
      × ((s : ℕ) → move (negsuc s) gid configs ≡ none)
unfolding move move_to
move-panics gid configs = (λ s l. ground arith, λ s. ground arith)

-- Join and leave always add one configuration with the next number to a history; a move does so
-- where the shard is an index of the array, and else it panics. What they make is a history again.
pub changes_grow :
    (new : Dict ℤ (List String)) (gids : List ℤ) (gid : ℤ) (configs : List Config)
    → IsHistory configs
    → ((a : List Config) × (join new configs ≡ some a) × Grows configs a × IsHistory a)
      × ((b : List Config) × (leave gids configs ≡ some b) × Grows configs b × IsHistory b)
      × ((s : ℕ)
          → s < n_shards
          → (d : List Config) × (move (pos s) gid configs ≡ some d) × Grows configs d × IsHistory d)
      × ((s : ℕ) → n_shards ≤ s → move (pos s) gid configs ≡ none)
      × ((s : ℕ) → move (negsuc s) gid configs ≡ none)
changes_grow new gids gid configs h =
    let (a, ja, ga) = join-Grows new configs h in
    let (b, lb, gb) = leave-Grows gids configs h in
    let (high, low) = move-panics gid configs in
    (
      (a, ja, ga, Grows-IsHistory configs a h ga),
      (b, lb, gb, Grows-IsHistory configs b h gb),
      λ s l.
          let (d, md, gd) = move-Grows s gid configs h l in
          (d, md, gd, Grows-IsHistory configs d h gd),
      high,
      low,
    )

-- On a history, a query answers the configuration with its number where there is one, and the
-- latest one for a number that is negative or not there yet.
pub query_lem :
    (configs : List Config)
    → IsHistory configs
    → ((n : ℕ) → n < length configs → (c : Config) × (query (pos n) configs ≡ some c) × (c.num ≡ n))
      × ((n : ℕ)
          → length configs ≤ n
          → (c : Config) × (query (pos n) configs ≡ some c) × (c.num + 1 ≡ length configs))
      × ((n : ℕ)
          → (c : Config) × (query (negsuc n) configs ≡ some c) × (c.num + 1 ≡ length configs))
unfolding query
query_lem configs h =
    let (c, e, _, n) = last_config_lem configs h in
    (
      λ i l.
          let (d, f) = get_elem?_lt configs i l in
          let (k, _) = get_elem?-NumberedFrom 0 configs i d h.1 f in
          let off : leb (length configs) i ≡ false = ground arith in (d, rw off f, omega arith),
      λ i l. let on : leb (length configs) i ≡ true = ground arith in (c, rw on e, n),
      λ i. (c, e, n),
    )

-- The table of no groups.
abbrev loose : Table
loose = table_of {V = List String} [] (replicate n_shards (pos 0))

rebalance-loose :
    rebalance join_fuel loose
    ≡ some ((pos 0, []) ∷ (minus_one, 0 ∷ 1 ∷ 2 ∷ 3 ∷ 4 ∷ 5 ∷ 6 ∷ 7 ∷ 8 ∷ 9 ∷ []) ∷ [])
unfolding rebalance table_of lookup insert move_shard
rebalance-loose = refl

-- A join of no groups, on a latest configuration without groups whose shards are at group 0, gives
-- every shard to group -1.
pub join_no_groups :
    (configs : List Config) (c : Config)
    → last_config configs ≡ some c
    → c.groups ≡ []
    → c.shards ≡ replicate n_shards (pos 0)
    → join [] configs
      ≡ some (
          configs
          ++ record { num = length configs; shards = replicate n_shards minus_one; groups = [] }
            ∷ [])
unfolding join
join_no_groups configs c e g s = rw (e, g, s, rebalance-loose) refl
