-- ===== src/ShardCtrler/Balance/Places.antt =====
-- src/shardctrler/state_machine.go: how often each shard stands in a table, and that the loop of
-- `Join` leaves that as it is.
use mathlib.Core.Path.{subst}
use nexus_mind.Prelude.{
  ℕ, zero, suc, ◌+◌, ◌≤◌, ◌≡◌, refl, ap, inl, inr, Bool, not, ◌&&◌, List, [], ◌∷◌, ◌++◌, none, some,
  arith, if◌then◌else◌, ◌==◌, leb, ltb, length, Bool-cases, Option-cases, ◌⊎◌, some-inj, sym, ◌∙◌,
  ==_iff,
}
use nexus_mind.Prelude.Int.{ℤ, pos, ◌==ℤ◌, ==ℤ_iff}
use nexus_mind.Prelude.Dict.{Dict, int_eq, insert, lookup}
use nexus_mind.ShardCtrler.Balance.{
  Table, shards_of, gids_of, gid_with_max_shards, gid_with_min_shards, move_shard, rebalance,
  empty_table, fill_table, table_of,
}
use nexus_mind.ShardCtrler.Balance.Sums.{table_sum, table_sum-insert, shards_of-insert}

abbrev one_if : Bool → ℕ
one_if b = if b then 1 else 0

unfoldable pub occurrences : ℕ → List ℕ → ℕ
occurrences s [] = 0
occurrences s (x ∷ xs) = one_if (x == s) + occurrences s xs

occurrences-append :
    (s : ℕ) (a b : List ℕ) → occurrences s (a ++ b) ≡ occurrences s a + occurrences s b
unfolding occurrences
occurrences-append s [] b = omega arith
occurrences-append s (x ∷ a) b = omega (arith, occurrences-append s a b)

unfoldable pub copies : ℕ → Table → ℕ
copies s [] = 0
copies s ((g, l) ∷ m) = occurrences s l + copies s m

copies-insert :
    (s : ℕ) (k : ℤ) (v : List ℕ) (m : Table)
    → copies s (insert k v m) + occurrences s (shards_of k m) ≡ copies s m + occurrences s v
unfolding copies insert shards_of lookup occurrences
copies-insert s k v [] = omega arith
copies-insert s k v ((g, l) ∷ m) = elim (Bool-cases (g ==ℤ k)) [
  | inl same ↦ ground arith
  | inr other ↦ ground (arith, copies-insert s k v m)
]

-- The number, for the one group.
abbrev pub at_group : ℤ → ℤ → ℕ → ℕ
at_group h g n = if g ==ℤ h then n else 0

-- No group has a second entry with shards.
abbrev pub Keyed : Table → Type 0
Keyed m = (h : ℤ) → table_sum (at_group h) m ≡ length (shards_of h m)

Keyed-insert : (k : ℤ) (v : List ℕ) (m : Table) → Keyed m → Keyed (insert k v m)
Keyed-insert k v m keyed = λ h.
    let sum = table_sum-insert (at_group h) k v m (ground arith) in
    let look = shards_of-insert k h v m in
    let before = keyed h in
    elim (Bool-cases (k ==ℤ h)) [
      | inl e ↦ let same = ap (λ g. length (shards_of g m)) ((==ℤ_iff k h).0 e) in ground arith
      | inr n ↦ ground arith
    ]

-- A table that holds the same shards.
abbrev pub Kept : Table → Table → Type 0
Kept m m' = ((s : ℕ) → copies s m' ≡ copies s m) × (Keyed m → Keyed m')

put_back :
    (s x : ℕ) (from to : ℤ) (ts : List ℕ) (m : Table)
    → shards_of from (insert to (shards_of to m ++ x ∷ []) m) ≡ x ∷ ts
    → copies s (insert from ts (insert to (shards_of to m ++ x ∷ []) m)) ≡ copies s m
unfolding occurrences
put_back s x from to ts m e =
    let m1 = insert to (shards_of to m ++ x ∷ []) m in
    let out = copies-insert s from ts m1 in
    let held = ap (occurrences s) e in
    omega (
      arith,
      copies-insert s to (shards_of to m ++ x ∷ []) m,
      occurrences-append s (shards_of to m) (x ∷ []),
    )

-- After the first half of a move the shard is still the first of its group.
still_first :
    (from to : ℤ) (x : ℕ) (ss : List ℕ) (m : Table)
    → shards_of from m ≡ x ∷ ss
    → (ts : List ℕ) × (shards_of from (insert to (shards_of to m ++ x ∷ []) m) ≡ x ∷ ts)
still_first from to x ss m e =
    let look = shards_of-insert to from (shards_of to m ++ x ∷ []) m in
    elim (Bool-cases (to ==ℤ from)) [
      | inl s ↦
          let own = ap (λ g. shards_of g m ++ x ∷ []) ((==ℤ_iff to from).0 s) in
          (ss ++ x ∷ [], ground (arith, ap (λ l. l ++ x ∷ []) e))
      | inr n ↦ (ss, ground arith)
    ]

move_shard-none : (from to : ℤ) (m : Table) → shards_of from m ≡ [] → move_shard from to m ≡ none
unfolding move_shard
move_shard-none from to m e = ground (arith, e)

move_shard-some :
    (from to : ℤ) (x : ℕ) (ss ts : List ℕ) (m : Table)
    → shards_of from m ≡ x ∷ ss
    → shards_of from (insert to (shards_of to m ++ x ∷ []) m) ≡ x ∷ ts
    → move_shard from to m ≡ some (insert from ts (insert to (shards_of to m ++ x ∷ []) m))
unfolding move_shard
move_shard-some from to x ss ts m e f = ground (arith, e, f)

move_of_form :
    (from to : ℤ) (l : List ℕ) (m m' : Table)
    → shards_of from m ≡ l
    → move_shard from to m ≡ some m'
    → (x : ℕ) × (ss ts : List ℕ) × (shards_of from m ≡ x ∷ ss)
      × (shards_of from (insert to (shards_of to m ++ x ∷ []) m) ≡ x ∷ ts)
      × (insert from ts (insert to (shards_of to m ++ x ∷ []) m) ≡ m')
move_of_form from to [] m m' e h = absurd (ground (arith, move_shard-none from to m e))
move_of_form from to (x ∷ ss) m m' e h =
    let (ts, f) = still_first from to x ss m e in
    (x, ss, ts, e, f, some-inj _ _ (sym (move_shard-some from to x ss ts m e f) ∙ h))

-- A move writes two groups: the one that gets the shard, and the one that had it first.
pub move_shard_form :
    (from to : ℤ) (m m' : Table)
    → move_shard from to m ≡ some m'
    → (x : ℕ) × (ss ts : List ℕ) × (shards_of from m ≡ x ∷ ss)
      × (shards_of from (insert to (shards_of to m ++ x ∷ []) m) ≡ x ∷ ts)
      × (insert from ts (insert to (shards_of to m ++ x ∷ []) m) ≡ m')
move_shard_form from to m m' h = move_of_form from to (shards_of from m) m m' refl h

move_shard-Kept : (from to : ℤ) (m m' : Table) → move_shard from to m ≡ some m' → Kept m m'
move_shard-Kept from to m m' h =
    let (x, ss, ts, e, f, q) = move_shard_form from to m m' h in
    let m1 = insert to (shards_of to m ++ x ∷ []) m in
    let kept : Kept m (insert from ts m1) = (
      λ s. put_back s x from to ts m f,
      λ keyed. Keyed-insert from ts m1 (Keyed-insert to (shards_of to m ++ x ∷ []) m keyed),
    ) in
    subst (Kept m) q kept

pub rebalance-step :
    (fuel : ℕ) (m m' : Table)
    → rebalance (suc fuel) m ≡ some m'
    → (m ≡ m')
      ⊎ ((n : Table) × (move_shard (gid_with_max_shards m) (gid_with_min_shards m) m ≡ some n)
          × (rebalance fuel n ≡ some m'))
unfolding rebalance
rebalance-step fuel m m' h =
    let from = gid_with_max_shards m in
    let to = gid_with_min_shards m in
    elim (Option-cases (move_shard from to m)) [
      | inl e ↦ inl (ground (arith, h, e))
      | inr (n, e) ↦
          elim (Bool-cases (
            not (from ==ℤ pos 0)
            && leb (length (shards_of from m)) (length (shards_of to m) + 1))) [
              | inl stop ↦ inl (ground (arith, h, stop))
              | inr on ↦ inr (n, e, ground (arith, h, on, e))
            ]
    ]

-- The loop of `Join` leaves every shard as often in the table as it was.
pub rebalance-Kept : (fuel : ℕ) (m m' : Table) → rebalance fuel m ≡ some m' → Kept m m'
unfolding rebalance
rebalance-Kept zero m m' h = absurd (ground (arith, h))
rebalance-Kept (suc fuel) m m' h = elim (rebalance-step fuel m m' h) [
  | inl e ↦ let kept : Kept m m = (λ s. refl, λ k. k) in subst (Kept m) e kept
  | inr (n, e, r) ↦
      let (one, key) = move_shard-Kept _ _ m n e in
      let (rest, keys) = rebalance-Kept fuel n m' r in (λ s. rest s ∙ one s, λ k. keys (key k))
]

copies-empty_table : (s : ℕ) (gs : List ℤ) (m : Table) → copies s (empty_table gs m) ≤ copies s m
unfolding empty_table occurrences
copies-empty_table s [] m = omega arith
copies-empty_table s (g ∷ gs) m =
    omega (arith, copies-empty_table s gs (insert g [] m), copies-insert s g [] m)

Keyed-empty_table : (gs : List ℤ) (m : Table) → Keyed m → Keyed (empty_table gs m)
unfolding empty_table
Keyed-empty_table [] m k = k
Keyed-empty_table (g ∷ gs) m k = Keyed-empty_table gs (insert g [] m) (Keyed-insert g [] m k)

Keyed-fill_table : (gs : List ℤ) (n : ℕ) (m : Table) → Keyed m → Keyed (fill_table gs n m)
unfolding fill_table
Keyed-fill_table [] n m k = k
Keyed-fill_table (g ∷ gs) n m k =
    let l = shards_of g m ++ n ∷ [] in
    Keyed-fill_table gs (n + 1) (insert g l m) (Keyed-insert g l m k)

-- From shard `n` on, each shard of the array is put into the table once.
copies-fill_table :
    (s : ℕ) (gs : List ℤ) (n : ℕ) (m : Table)
    → copies s (fill_table gs n m) ≡ copies s m + one_if (leb n s && ltb s (n + length gs))
unfolding fill_table occurrences
copies-fill_table s [] n m = ground arith
copies-fill_table s (g ∷ gs) n m =
    let l = shards_of g m ++ n ∷ [] in
    ground (
      arith,
      copies-fill_table s gs (n + 1) (insert g l m),
      copies-insert s g l m,
      occurrences-append s (shards_of g m) (n ∷ []),
      ==_iff n s,
    )

-- The table of a configuration holds each shard of its array once, and no other.
pub copies-table_of :
    {V : Type 0}
    → (groups : Dict ℤ V) (shards : List ℤ) (s : ℕ)
    → copies s (table_of groups shards) ≡ one_if (ltb s (length shards))
unfolding table_of copies
copies-table_of groups shards s =
    let e = empty_table (gids_of groups) [] in
    let empty : copies s e ≡ 0 = omega (arith, copies-empty_table s (gids_of groups) []) in
    ground (arith, copies-fill_table s shards 0 e, empty)

pub table_of-Keyed :
    {V : Type 0} → (groups : Dict ℤ V) (shards : List ℤ) → Keyed (table_of groups shards)
unfolding table_of table_sum shards_of lookup
table_of-Keyed groups shards =
    Keyed-fill_table shards 0 (empty_table (gids_of groups) [])
      (Keyed-empty_table (gids_of groups) [] (λ h. refl))
