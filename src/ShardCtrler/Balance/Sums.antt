-- ===== src/ShardCtrler/Balance/Sums.antt =====
-- src/shardctrler/state_machine.go: sums over the groups of a table, and what moving a shard does
-- to them.
use nexus_mind.Prelude.{
  ℕ, ◌+◌, ◌*◌, ◌≤◌, ◌<◌, ◌≡◌, refl, ◌≢◌, ◌⊎◌, inl, inr, List, [], ◌∷◌, ◌++◌, some, arith, ap,
  if◌then◌else◌, length, length-append, Bool-cases,
}
use nexus_mind.Prelude.Int.{ℤ, pos, ◌==ℤ◌, ==ℤ_iff}
use nexus_mind.Prelude.Dict.{int_eq, lookup, insert, lookup-insert}
use nexus_mind.ShardCtrler.Balance.{Table, shards_of, gids_of, move_shard}

unfoldable pub table_sum : (ℤ → ℕ → ℕ) → Table → ℕ
table_sum f [] = 0
table_sum f ((g, l) ∷ m) = f g (length l) + table_sum f m

-- The number of shards.
abbrev pub total : Table → ℕ
total = table_sum (λ g n. n)

-- The list holds the id.
abbrev pub In : ℤ → List ℤ → Type 0
In g [] = ⊥
In g (h ∷ hs) = (h ≡ g) ⊎ In g hs

pub In-insert :
    (g k : ℤ) (v : List ℕ) (m : Table) → In g (gids_of m) → In g (gids_of (insert k v m))
unfolding gids_of insert
In-insert g k v [] i = absurd i
In-insert g k v ((h, l) ∷ m) i = ground (arith, In-insert g k v m, ==ℤ_iff h k)

pub In-insert_self : (k : ℤ) (v : List ℕ) (m : Table) → In k (gids_of (insert k v m))
unfolding gids_of insert
In-insert_self k v [] = inl refl
In-insert_self k v ((h, l) ∷ m) = ground (arith, In-insert_self k v m, ==ℤ_iff h k)

pub shards_of-insert :
    (k g : ℤ) (v : List ℕ) (m : Table)
    → shards_of g (insert k v m) ≡ (if k ==ℤ g then v else shards_of g m)
unfolding shards_of
shards_of-insert k g v m = ground (arith, lookup-insert k g v m)

pub table_sum-insert :
    (f : ℤ → ℕ → ℕ) (k : ℤ) (v : List ℕ) (m : Table)
    → f k 0 ≡ 0
    → table_sum f (insert k v m) + f k (length (shards_of k m)) ≡ table_sum f m + f k (length v)
unfolding table_sum insert shards_of lookup
table_sum-insert f k v [] z = omega arith
table_sum-insert f k v ((g, l) ∷ m) z = elim (Bool-cases (g ==ℤ k)) [
  | inl same ↦ let e : g ≡ k = (==ℤ_iff g k).0 same in ground (arith, ap (λ x. f x (length l)) e)
  | inr other ↦ ground (arith, table_sum-insert f k v m z)
]

pub length-shards_of-le : (g : ℤ) (m : Table) → length (shards_of g m) ≤ total m
unfolding table_sum shards_of lookup
length-shards_of-le g [] = omega arith
length-shards_of-le g ((h, l) ∷ m) = ground (arith, length-shards_of-le g m)

abbrev moved : ℤ → ℤ → ℕ → List ℕ → Table → Table
moved from to s ss m = insert from ss (insert to (shards_of to m ++ s ∷ []) m)

move_shard_eq :
    (from to : ℤ) (s : ℕ) (ss : List ℕ) (m : Table)
    → from ≢ to
    → shards_of from m ≡ s ∷ ss
    → move_shard from to m ≡ some (moved from to s ss m)
unfolding move_shard
move_shard_eq from to s ss m ne e =
    ground (arith, shards_of-insert to from (shards_of to m ++ s ∷ []) m, ==ℤ_iff to from)

table_sum-moved :
    (f : ℤ → ℕ → ℕ) (from to : ℤ) (s : ℕ) (ss : List ℕ) (m : Table)
    → f from 0 ≡ 0
    → f to 0 ≡ 0
    → from ≢ to
    → shards_of from m ≡ s ∷ ss
    → table_sum f (moved from to s ss m) + f from (length ss + 1) + f to (length (shards_of to m))
      ≡ table_sum f m + f from (length ss) + f to (length (shards_of to m) + 1)
table_sum-moved f from to s ss m z z' ne e =
    let grown = shards_of to m ++ s ∷ [] in
    let m' = insert to grown m in
    let e1 = table_sum-insert f to grown m z' in
    let e2 = table_sum-insert f from ss m' z in
    let len : length grown ≡ length (shards_of to m) + 1 =
      omega (arith, length-append (shards_of to m) (s ∷ [])) in
    let at_to = ap (f to) len in
    let kept : shards_of from m' ≡ s ∷ ss =
      ground (arith, shards_of-insert to from grown m, ==ℤ_iff to from) in
    let one : length (shards_of from m') ≡ length ss + 1 = rw kept (omega arith) in
    let at_from = ap (f from) one in omega arith

unfoldable pub cost : ℕ → ℤ → ℕ → ℕ
cost t g n = if g ==ℤ pos 0 then (2 * t + 2) * n else n * n

cost_none : (t : ℕ) (g : ℤ) (n : ℕ) → g ≡ pos 0 → cost t g n ≡ (2 * t + 2) * n
unfolding cost
cost_none t g n h = ground (arith, ==ℤ_iff g (pos 0))

cost_group : (t : ℕ) (g : ℤ) (n : ℕ) → g ≢ pos 0 → cost t g n ≡ n * n
unfolding cost
cost_group t g n h = ground (arith, ==ℤ_iff g (pos 0))

cost-zero : (t : ℕ) (g : ℤ) → cost t g 0 ≡ 0
unfolding cost
cost-zero t g = ground arith

-- What falls with every move of the loop, for at most `t` shards: a shard of no group weighs more
-- than a square can grow.
abbrev pub weight : ℕ → Table → ℕ
weight t = table_sum (cost t)

moved_none :
    (t : ℕ) (from to : ℤ) (s : ℕ) (ss : List ℕ) (m : Table)
    → from ≢ to
    → from ≡ pos 0
    → to ≢ pos 0
    → total m ≤ t
    → shards_of from m ≡ s ∷ ss
    → weight t (moved from to s ss m) < weight t m
moved_none t from to s ss m ne z nz le e =
    let b = length (shards_of to m) in
    omega (
      arith,
      table_sum-moved (cost t) from to s ss m (cost-zero t from) (cost-zero t to) ne e,
      cost_none t from (length ss) z,
      cost_none t from (length ss + 1) z,
      cost_group t to b nz,
      cost_group t to (b + 1) nz,
      length-shards_of-le to m,
    )

moved_group :
    (t : ℕ) (from to : ℤ) (s : ℕ) (ss : List ℕ) (m : Table)
    → from ≢ to
    → from ≢ pos 0
    → to ≢ pos 0
    → shards_of from m ≡ s ∷ ss
    → length (shards_of to m) < length ss
    → weight t (moved from to s ss m) < weight t m
moved_group t from to s ss m ne nf nz e gap =
    let b = length (shards_of to m) in
    omega (
      arith,
      table_sum-moved (cost t) from to s ss m (cost-zero t from) (cost-zero t to) ne e,
      cost_group t from (length ss) nf,
      cost_group t from (length ss + 1) nf,
      cost_group t to b nz,
      cost_group t to (b + 1) nz,
    )

-- Some group of the table has a shard.
abbrev pub Held : Table → Type 0
Held m = (g : ℤ) × In g (gids_of m) × (0 < length (shards_of g m))

pub Held-insert : (k : ℤ) (v : List ℕ) (m : Table) → 0 < length v → Held (insert k v m)
Held-insert k v m p =
    (k, In-insert_self k v m, ground (arith, shards_of-insert k k v m, ==ℤ_iff k k))

Held-moved :
    (from to : ℤ) (s : ℕ) (ss : List ℕ) (m : Table) → from ≢ to → Held (moved from to s ss m)
Held-moved from to s ss m ne =
    let grown = shards_of to m ++ s ∷ [] in
    let m' = insert to grown m in
    (
      to,
      In-insert to from ss m' (In-insert_self to grown m),
      ground (
        arith,
        shards_of-insert from to ss m',
        shards_of-insert to to grown m,
        ==ℤ_iff from to,
        ==ℤ_iff to to,
        length-append (shards_of to m) (s ∷ []),
      ),
    )

module _ (t : ℕ) (from to : ℤ) (m : Table) (nz : to ≢ pos 0) (le : total m ≤ t) where
  abbrev pub Moves : Type 0
  Moves =
      (m' : Table) × (move_shard from to m ≡ some m')
      × (total m' ≡ total m)
      × (weight t m' < weight t m)
      × ((g : ℤ) → In g (gids_of m) → In g (gids_of m'))
      × Held m'

  moves :
      (s : ℕ) (ss : List ℕ)
      → from ≢ to
      → shards_of from m ≡ s ∷ ss
      → (from ≡ pos 0) ⊎ (length (shards_of to m) < length ss)
      → Moves
  moves s ss ne e gap = (
    moved from to s ss m,
    move_shard_eq from to s ss m ne e,
    omega (arith, table_sum-moved (λ (g : ℤ) (n : ℕ). n) from to s ss m refl refl ne e),
    elim (Bool-cases (from ==ℤ pos 0)) [
      | inl z ↦ moved_none t from to s ss m ne ((==ℤ_iff from (pos 0)).0 z) nz le e
      | inr n ↦
          let nf : from ≢ pos 0 = λ p. ground (arith, ==ℤ_iff from (pos 0)) in
          moved_group t from to s ss m ne nf nz e (ground arith)
    ],
    λ g i.
        In-insert g from ss (insert to (shards_of to m ++ s ∷ []) m)
          (In-insert g to (shards_of to m ++ s ∷ []) m i),
    Held-moved from to s ss m ne,
  )

  move_of :
      (l : List ℕ)
      → shards_of from m ≡ l
      → 0 < length l
      → (from ≡ pos 0) ⊎ (length (shards_of to m) + 1 < length l)
      → Moves
  move_of [] e p gap = absurd (omega arith)
  move_of (s ∷ ss) e p gap =
      moves s ss (λ q. absurd (ground (arith, ap (λ g. length (shards_of g m)) q, ap length e))) e
        (ground arith)

  -- A move of the loop loses no shard and no group, and the weight falls: the shard comes from no
  -- group, or from a group that has two more than the other.
  pub move_shard_lem :
      0 < length (shards_of from m)
      → (from ≡ pos 0) ⊎ (length (shards_of to m) + 1 < length (shards_of from m))
      → Moves
  move_shard_lem p gap = move_of (shards_of from m) refl p gap
