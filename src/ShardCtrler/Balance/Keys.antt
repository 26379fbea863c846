-- ===== src/ShardCtrler/Balance/Keys.antt =====
-- src/shardctrler/state_machine.go: the groups of a table are those of the configuration, those that
-- had a shard, and the group -1 that the search for the emptiest starts from.
use mathlib.Core.Path.{subst}
use nexus_mind.Prelude.{
  ℕ, zero, suc, Bool, true, false, ◌+◌, ◌<◌, ◌≡◌, refl, sym, ◌∙◌, inl, inr, ◌⊎◌, not, ◌&&◌, List,
  [], ◌∷◌, ◌++◌, some, arith, length, ltb, Bool-cases, if◌then◌else◌,
}
use nexus_mind.Prelude.Int.{ℤ, pos, minus_one, ◌==ℤ◌, ==ℤ_iff}
use nexus_mind.Prelude.Dict.{Dict, int_eq, insert}
use nexus_mind.ShardCtrler.Common.{n_shards}
use nexus_mind.ShardCtrler.Balance.{
  Table, shards_of, gids_of, insert_gid, sort_gids, min_from, gid_with_max_shards,
  gid_with_min_shards, move_shard, rebalance, empty_table, fill_table, table_of,
}
use nexus_mind.ShardCtrler.Balance.Sums.{In}
use nexus_mind.ShardCtrler.Balance.Places.{rebalance-step, move_shard_form}
use nexus_mind.ShardCtrler.Balance.Counts.{group_size, shards_of-In}

insert-In :
    (g k : ℤ) (v : List ℕ) (m : Table) → In g (gids_of (insert k v m)) → (g ≡ k) ⊎ In g (gids_of m)
unfolding insert gids_of
insert-In g k v [] (inl e) = inl (sym e)
insert-In g k v [] (inr i) = absurd i
insert-In g k v ((h, l) ∷ m) i = elim (Bool-cases (h ==ℤ k)) [
  | inl s ↦ (elim (rw s at i) [ inl e ↦ inl (sym e) | inr j ↦ inr (inr j) ])
  | inr n ↦ ground (arith, insert-In g k v m)
]

insert_gid-In : (g h : ℤ) (gs : List ℤ) → In g (insert_gid h gs) → (h ≡ g) ⊎ In g gs
unfolding insert_gid
insert_gid-In g h [] i = i
insert_gid-In g h (x ∷ gs) i = ground (arith, insert_gid-In g h gs)

sort_gids-In : (g : ℤ) (gs : List ℤ) → In g (sort_gids gs) → In g gs
unfolding sort_gids
sort_gids-In g [] i = i
sort_gids-In g (h ∷ gs) i = elim (insert_gid-In g h (sort_gids gs) i) [
  | inl e ↦ inl e
  | inr j ↦ inr (sort_gids-In g gs j)
]

if-holds : (P : ℤ → Type 0) (b : Bool) (g h : ℤ) → P g → P h → P (if b then g else h)
if-holds P true g h p q = p
if-holds P false g h p q = q

-- What holds of the start and of every group of the list holds of the one that is found.
min_from-holds :
    (P : ℤ → Type 0) (m : Table) (gs : List ℤ) (best : ℤ) (least : ℕ)
    → P best
    → ((g : ℤ) → In g gs → P g)
    → P (min_from m gs best least)
unfolding min_from
min_from-holds P m [] best least p q = p
min_from-holds P m (x ∷ gs) best least p q =
    let better = not (x ==ℤ pos 0) && ltb (length (shards_of x m)) least in
    min_from-holds P m gs (if better then x else best)
      (if better then length (shards_of x m) else least)
      (if-holds P better x best (q x (inl refl)) p) (λ g i. q g (inr i))

gid_with_min_shards-In :
    (m : Table) → (gid_with_min_shards m ≡ minus_one) ⊎ In (gid_with_min_shards m) (gids_of m)
unfolding gid_with_min_shards
gid_with_min_shards-In m =
    min_from-holds (λ g. (g ≡ minus_one) ⊎ In g (gids_of m)) m (sort_gids (gids_of m)) minus_one
      (n_shards + 1) (inl refl) (λ g i. inr (sort_gids-In g (gids_of m) i))

-- A group of the second table is one of the first, or group -1.
abbrev pub Known : Table → Table → Type 0
Known m m' = (g : ℤ) → In g (gids_of m') → In g (gids_of m) ⊎ (g ≡ minus_one)

step-Known :
    (m m' : Table)
    → move_shard (gid_with_max_shards m) (gid_with_min_shards m) m ≡ some m'
    → Known m m'
step-Known m m' h =
    let from = gid_with_max_shards m in
    let to = gid_with_min_shards m in
    let (x, ss, ts, e, _, q) = move_shard_form from to m m' h in
    let there : In from (gids_of m) =
      shards_of-In from m (subst (λ l. 0 < length l) (sym e) (omega arith)) in
    λ g i.
      let own = subst (λ n. In g (gids_of n)) (sym q) i in
      elim (insert-In g from ts (insert to (shards_of to m ++ x ∷ []) m) own) [
        | inl s ↦ inl (subst (λ k. In k (gids_of m)) (sym s) there)
        | inr j ↦ elim (insert-In g to (shards_of to m ++ x ∷ []) m j) [
          | inr k ↦ inl k
          | inl s ↦ elim (gid_with_min_shards-In m) [
            | inl z ↦ inr (s ∙ z)
            | inr k ↦ inl (subst (λ k. In k (gids_of m)) (sym s) k)
          ]
        ]
      ]

-- The loop of `Join` brings in no group but -1.
pub rebalance-Known : (fuel : ℕ) (m m' : Table) → rebalance fuel m ≡ some m' → Known m m'
unfolding rebalance
rebalance-Known zero m m' h = absurd (ground (arith, h))
rebalance-Known (suc fuel) m m' h = elim (rebalance-step fuel m m' h) [
  | inl e ↦ λ g i. inl (subst (λ n. In g (gids_of n)) (sym e) i)
  | inr (n, e, r) ↦
      λ g i. elim (rebalance-Known fuel n m' r g i) [ inl j ↦ step-Known m n e g j | inr z ↦ inr z ]
]

empty_table-In :
    (g : ℤ) (gs : List ℤ) (m : Table)
    → In g (gids_of (empty_table gs m))
    → In g gs ⊎ In g (gids_of m)
unfolding empty_table
empty_table-In g [] m i = inr i
empty_table-In g (h ∷ gs) m i = elim (empty_table-In g gs (insert h [] m) i) [
  | inl j ↦ inl (inr j)
  | inr j ↦ (elim (insert-In g h [] m j) [ inl e ↦ inl (inl (sym e)) | inr k ↦ inr k ])
]

fill_table-In :
    (g : ℤ) (gs : List ℤ) (n : ℕ) (m : Table)
    → In g (gids_of (fill_table gs n m))
    → (0 < group_size g gs) ⊎ In g (gids_of m)
unfolding fill_table group_size
fill_table-In g [] n m i = inr i
fill_table-In g (h ∷ gs) n m i =
    let l = shards_of h m ++ n ∷ [] in
    elim (fill_table-In g gs (n + 1) (insert h l m) i) [
      | inl p ↦ inl (omega arith)
      | inr j ↦ (elim (insert-In g h l m j) [
        | inl e ↦ inl (ground (arith, ==ℤ_iff h g, sym e))
        | inr k ↦ inr k
      ])
    ]

pub table_of-In :
    {V : Type 0}
    → (groups : Dict ℤ V) (shards : List ℤ) (g : ℤ) → In g (gids_of (table_of groups shards))
    → In g (gids_of groups) ⊎ (0 < group_size g shards)
unfolding table_of
table_of-In groups shards g i =
    elim (fill_table-In g shards 0 (empty_table (gids_of groups) []) i) [
      | inl p ↦ inr p
      | inr j ↦ (elim (empty_table-In g (gids_of groups) [] j) [
        | inl k ↦ inl k
        | inr k ↦ absurd (unfold gids_of in k)
      ])
    ]
