-- ===== src/ShardCtrler/Balance/Ends.antt =====
-- src/shardctrler/state_machine.go: the loop of `Join` ends, and the table it leaves is balanced.
use mathlib.Core.Path.{subst}
use nexus_mind.Prelude.{
  ℕ, zero, suc, ◌+◌, ◌*◌, ◌≤◌, ◌<◌, ◌≡◌, refl, ◌≢◌, ◌⊎◌, inl, inr, Bool, true, false, not, ◌&&◌,
  List, [], ◌∷◌, ◌++◌, some, arith, ap, ◌∙◌, leb, ltb, if◌then◌else◌, length, length-append,
  Bool-cases,
}
use nexus_mind.Prelude.Int.{ℤ, pos, minus_one, ◌==ℤ◌, ==ℤ_iff}
use nexus_mind.Prelude.Dict.{Dict, insert, int_eq}
use nexus_mind.ShardCtrler.Common.{n_shards}
use nexus_mind.ShardCtrler.Balance.{
  Table, shards_of, gids_of, gid_with_max_shards, gid_with_min_shards, move_shard, rebalance,
  empty_table, fill_table, table_of, shards_array,
}
use nexus_mind.ShardCtrler.Balance.Sums.{
  In, In-insert, In-insert_self, total, cost, table_sum, weight, Held, Held-insert, Moves,
  move_shard_lem, table_sum-insert,
}
use nexus_mind.ShardCtrler.Balance.Places.{copies, rebalance-Kept, copies-table_of, table_of-Keyed}
use nexus_mind.ShardCtrler.Balance.Counts.{group_size, group_size-shards_array, shards_of-In}
use nexus_mind.ShardCtrler.Balance.Keys.{rebalance-Known, table_of-In}
use nexus_mind.ShardCtrler.Balance.Extremes.{gid_with_max_shards_lem, gid_with_min_shards_lem}

-- Group 0 has no shard, and the numbers of two groups differ by one at most.
abbrev Even : Table → Type 0
Even m =
    (length (shards_of (pos 0) m) ≡ 0)
    × ((g h : ℤ)
        → In g (gids_of m)
        → In h (gids_of m)
        → h ≢ pos 0
        → length (shards_of g m) ≤ length (shards_of h m) + 1)

abbrev Ends : ℕ → Table → Type 0
Ends fuel m =
    (m' : Table) × (rebalance fuel m ≡ some m')
    × (total m' ≡ total m)
    × ((g : ℤ) → In g (gids_of m) → In g (gids_of m'))
    × Even m'

-- The test of the loop.
abbrev stops : Table → Bool
stops m =
    not (gid_with_max_shards m ==ℤ pos 0)
    && leb (length (shards_of (gid_with_max_shards m) m))
        (length (shards_of (gid_with_min_shards m) m) + 1)

stops-Even : (m : Table) → total m ≤ n_shards → stops m ≡ true → Even m
stops-Even m le e = elim (gid_with_max_shards_lem m) [
  | inl (z, _) ↦ absurd (ground (arith, ==ℤ_iff (gid_with_max_shards m) (pos 0)))
  | inr (z, top) ↦
      let (_, low) = gid_with_min_shards_lem m le in
      (z, λ g h i j nh. ground (arith, top g i, low h j nh))
]

goes_on :
    (m : Table) (le : total m ≤ n_shards)
    → Held m
    → stops m ≡ false
    → Moves 10 (gid_with_max_shards m) (gid_with_min_shards m) m (gid_with_min_shards_lem m le).0 le
goes_on m le (k, i, p) e =
    let (nz, _) = gid_with_min_shards_lem m le in
    let from = gid_with_max_shards m in
    let to = gid_with_min_shards m in
    elim (gid_with_max_shards_lem m) [
      | inl (z, q) ↦
          let same = ap (λ g. length (shards_of g m)) z in
          move_shard_lem 10 from to m nz le (omega arith) (inl z)
      | inr (z, top) ↦ elim (Bool-cases (from ==ℤ pos 0)) [
        | inl f ↦
            let f' = (==ℤ_iff from (pos 0)).0 f in
            let same = ap (λ g. length (shards_of g m)) f' in absurd (omega (arith, top k i))
        | inr f ↦ move_shard_lem 10 from to m nz le (omega (arith, top k i)) (inr (ground arith))
      ]
    ]

rebalance-stops : (fuel : ℕ) (m : Table) → stops m ≡ true → rebalance (suc fuel) m ≡ some m
unfolding rebalance
rebalance-stops fuel m e = ground arith

rebalance-moves :
    (fuel : ℕ) (m m' : Table)
    → stops m ≡ false
    → move_shard (gid_with_max_shards m) (gid_with_min_shards m) m ≡ some m'
    → rebalance (suc fuel) m ≡ rebalance fuel m'
unfolding rebalance
rebalance-moves fuel m m' e f = ground arith

-- With more fuel than the weight, the loop ends on a table of at most `n_shards` shards: no shard
-- and no group is lost, and what it leaves is balanced.
rebalance_lem :
    (fuel : ℕ) (m : Table) → total m ≤ n_shards → Held m → weight 10 m < fuel → Ends fuel m
rebalance_lem zero m le held w = absurd (omega arith)
rebalance_lem (suc fuel) m le held w = elim (Bool-cases (stops m)) [
  | inl stop ↦ (m, rebalance-stops fuel m stop, refl, λ g i. i, stops-Even m le stop)
  | inr on ↦
      let (m1, e1, t1, w1, k1, h1) = goes_on m le held on in
      let (m2, e2, t2, k2, b2) = rebalance_lem fuel m1 (omega arith) h1 (omega arith) in
      (m2, rebalance-moves fuel m m1 on e1 ∙ e2, t2 ∙ t1, λ g i. k2 g (k1 g i), b2)
]

mul_le : (a b c : ℕ) → a ≤ b → a * c ≤ b * c
mul_le a b zero le = omega arith
mul_le a b (suc c) le = omega (arith, mul_le a b c le)

cost-le : (g : ℤ) (n : ℕ) → n ≤ n_shards → cost 10 g n ≤ 22 * n
unfolding cost
cost-le g n le = ground (arith, mul_le n n_shards n le)

weight-le : (m : Table) → total m ≤ n_shards → weight 10 m ≤ 22 * total m
unfolding table_sum
weight-le [] le = omega arith
weight-le ((g, l) ∷ m) le =
    omega (arith, cost-le g (length l) (omega arith), weight-le m (omega arith))

total-empty_table : (gs : List ℤ) (m : Table) → total (empty_table gs m) ≤ total m
unfolding empty_table table_sum
total-empty_table [] m = omega arith
total-empty_table (g ∷ gs) m = omega (
  arith,
  total-empty_table gs (insert g [] m),
  table_sum-insert (λ (_ : ℤ) (n : ℕ). n) g [] m refl,
)

In-empty_table :
    (g : ℤ) (gs : List ℤ) (m : Table)
    → In g gs ⊎ In g (gids_of m)
    → In g (gids_of (empty_table gs m))
unfolding empty_table
In-empty_table g [] m i = ground arith
In-empty_table g (h ∷ gs) m (inl (inl e)) =
    In-empty_table g gs (insert h [] m)
      (inr (subst (λ k. In k (gids_of (insert h [] m))) e (In-insert_self h [] m)))
In-empty_table g (h ∷ gs) m (inl (inr i)) = In-empty_table g gs (insert h [] m) (inl i)
In-empty_table g (h ∷ gs) m (inr i) =
    In-empty_table g gs (insert h [] m) (inr (In-insert g h [] m i))

total-fill_table :
    (gs : List ℤ) (s : ℕ) (m : Table) → total (fill_table gs s m) ≡ length gs + total m
unfolding fill_table
total-fill_table [] s m = omega arith
total-fill_table (g ∷ gs) s m =
    let l = shards_of g m ++ s ∷ [] in
    omega (
      arith,
      total-fill_table gs (s + 1) (insert g l m),
      table_sum-insert (λ (_ : ℤ) (n : ℕ). n) g l m refl,
      length-append (shards_of g m) (s ∷ []),
    )

In-fill_table :
    (g : ℤ) (gs : List ℤ) (s : ℕ) (m : Table)
    → In g (gids_of m)
    → In g (gids_of (fill_table gs s m))
unfolding fill_table
In-fill_table g [] s m i = i
In-fill_table g (h ∷ gs) s m i =
    let l = shards_of h m ++ s ∷ [] in
    In-fill_table g gs (s + 1) (insert h l m) (In-insert g h l m i)

Held-fill_table :
    (gs : List ℤ) (s : ℕ) (m : Table) → (0 < length gs) ⊎ Held m → Held (fill_table gs s m)
unfolding fill_table
Held-fill_table [] s m (inl p) = absurd (omega arith)
Held-fill_table [] s m (inr h) = h
Held-fill_table (g ∷ gs) s m _ =
    let l = shards_of g m ++ s ∷ [] in
    Held-fill_table gs (s + 1) (insert g l m)
      (inr (Held-insert g l m (omega (arith, length-append (shards_of g m) (s ∷ [])))))

-- The array gives group 0 no shard, and the numbers of shards of two groups, each of the map or with
-- a shard, differ by one at most.
abbrev pub Balanced : {V : Type 0} → Dict ℤ V → List ℤ → Type 0
Balanced groups shards =
    (group_size (pos 0) shards ≡ 0)
    × ((g h : ℤ)
        → In g (gids_of groups) ⊎ (0 < group_size g shards)
        → In h (gids_of groups) ⊎ (0 < group_size h shards)
        → h ≢ pos 0
        → group_size g shards ≤ group_size h shards + 1)

-- A group with a shard in the new array is one of the map, or had a shard in the old array, or is
-- group -1.
abbrev pub HeldBefore : {V : Type 0} → Dict ℤ V → List ℤ → List ℤ → Type 0
HeldBefore groups old new =
    (g : ℤ)
    → 0 < group_size g new
    → In g (gids_of groups) ⊎ ((0 < group_size g old) ⊎ (g ≡ minus_one))

-- The loop of `Join` ends on the table of any configuration: with `join_fuel` rounds it gives a table
-- whose array shares the shards out.
pub rebalance-table_of :
    {V : Type 0}
    → (groups : Dict ℤ V) (shards : List ℤ) → length shards ≡ n_shards
    → (m : Table) × (rebalance 221 (table_of groups shards) ≡ some m)
      × Balanced groups (shards_array m)
      × HeldBefore groups shards (shards_array m)
unfolding table_of table_sum
rebalance-table_of groups shards len =
    let no_shards : total [] ≡ 0 = refl in
    let e = empty_table (gids_of groups) [] in
    let f = fill_table shards 0 e in
    let none_yet : total e ≡ 0 = omega (arith, total-empty_table (gids_of groups) [], no_shards) in
    let all : total f ≡ n_shards = omega (arith, total-fill_table shards 0 e) in
    let (m, r, t, k, (zero_none, close)) =
      rebalance_lem 221 f (omega arith) (Held-fill_table shards 0 e (inl (omega arith)))
        (omega (arith, weight-le f (omega arith))) in
    let (same, keyed) = rebalance-Kept 221 f m r in
    let once : (s : ℕ) → copies s m ≡ (if ltb s n_shards then 1 else 0) =
      λ s. same s ∙ copies-table_of groups shards s ∙ ap (λ n. if ltb s n then 1 else 0) len in
    let size : (h : ℤ) → group_size h (shards_array m) ≡ length (shards_of h m) =
      λ h. group_size-shards_array h m once (t ∙ all) (keyed (table_of-Keyed groups shards)) in
    let there : (g : ℤ)
        → In g (gids_of groups) ⊎ (0 < group_size g (shards_array m))
        → In g (gids_of m) =
      λ g i. elim i [
        | inl j ↦ k g (In-fill_table g shards 0 e (In-empty_table g (gids_of groups) [] (inl j)))
        | inr p ↦ shards_of-In g m (omega (arith, size g))
      ] in
    (
      m,
      r,
      (
        size (pos 0) ∙ zero_none,
        λ g h i j nz. omega (arith, close g h (there g i) (there h j) nz, size g, size h),
      ),
      λ g p. elim (rebalance-Known 221 f m r g (there g (inr p))) [
        | inr z ↦ inr (inr z)
        | inl i ↦ (elim (table_of-In groups shards g i) [ inl j ↦ inl j | inr q ↦ inr (inl q) ])
      ],
    )
