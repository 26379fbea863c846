-- ===== src/ShardCtrler/Balance/Counts.antt =====
-- src/shardctrler/state_machine.go: how many shards of an array each group has, and that the array of
-- a table gives each group its shards.
use nexus_mind.Prelude.{
  ℕ, zero, suc, ◌+◌, ◌≤◌, ◌<◌, ◌≡◌, refl, ap, ◌≢◌, List, [], ◌∷◌, some, arith, if◌then◌else◌,
  ==_iff, length, get_elem?, set, ltb, replicate, get_elem?-set_ne, ◌∙◌,
}
use nexus_mind.Prelude.Int.{ℤ, pos, ==ℤ_iff}
use nexus_mind.Prelude.Dict.{int_eq, lookup}
use nexus_mind.ShardCtrler.Common.{n_shards}
use nexus_mind.ShardCtrler.Balance.{
  Table, shards_of, gids_of, write_shards, write_table, shards_array,
}
use nexus_mind.ShardCtrler.Balance.Sums.{In, table_sum, total}
use nexus_mind.ShardCtrler.Balance.Places.{occurrences, copies, at_group, Keyed}

-- The number of shards that the array gives to the group.
unfoldable pub group_size : ℤ → List ℤ → ℕ
group_size h [] = 0
group_size h (g ∷ gs) = at_group h g 1 + group_size h gs

group_size-set :
    (h g x : ℤ) (out : List ℤ) (s : ℕ)
    → get_elem? out s ≡ some x
    → group_size h (set out s g) + at_group h x 1 ≡ group_size h out + at_group h g 1
unfolding group_size
group_size-set h g x [] s e = absurd (ground (arith, e))
group_size-set h g x (y ∷ out) zero e = ground (arith, e)
group_size-set h g x (y ∷ out) (suc s) e = omega (arith, group_size-set h g x out s e)

group_size-replicate : (h x : ℤ) (n : ℕ) → group_size h (replicate n x) ≡ at_group h x n
unfolding group_size
group_size-replicate h x zero = ground arith
group_size-replicate h x (suc n) = ground (arith, group_size-replicate h x n)

get_elem?-replicate : (x : ℤ) (n s : ℕ) → s < n → get_elem? (replicate n x) s ≡ some x
get_elem?-replicate x zero s l = absurd (omega arith)
get_elem?-replicate x (suc n) zero l = refl
get_elem?-replicate x (suc n) (suc s) l = get_elem?-replicate x n s (omega arith)

-- No shard is to be written twice, and none of them has been written.
abbrev Unwritten : (ℕ → ℕ) → List ℤ → Type 0
Unwritten c out = ((s : ℕ) → c s ≤ 1) × ((s : ℕ) → 0 < c s → get_elem? out s ≡ some (pos 0))

at_group-add : (h g : ℤ) (a b : ℕ) → at_group h g (a + b) ≡ at_group h g a + at_group h g b
at_group-add h g a b = ground arith

at_group-length :
    (h g : ℤ) (x : ℕ) (xs : List ℕ)
    → at_group h g (length (x ∷ xs)) ≡ at_group h g 1 + at_group h g (length xs)
at_group-length h g x xs = ground arith

Unwritten-step :
    (g : ℤ) (x : ℕ) (xs : List ℕ) (c : ℕ → ℕ) (out : List ℤ)
    → Unwritten (λ s. occurrences s (x ∷ xs) + c s) out
    → Unwritten (λ s. occurrences s xs + c s) (set out x g)
unfolding occurrences
Unwritten-step g x xs c out (once, free) = (
  λ s. omega (arith, once s),
  λ s l.
      let ne : x ≢ s = λ e. ground (arith, once s, ==_iff x s) in
      get_elem?-set_ne out g ne ∙ free s (omega arith),
)

first-free :
    (x : ℕ) (xs : List ℕ) (c : ℕ → ℕ) (out : List ℤ)
    → Unwritten (λ s. occurrences s (x ∷ xs) + c s) out
    → get_elem? out x ≡ some (pos 0)
unfolding occurrences
first-free x xs c out (once, free) = free x (ground (arith, ==_iff x x))

group_size-write_shards :
    (h g : ℤ) (l : List ℕ) (c : ℕ → ℕ) (out : List ℤ)
    → Unwritten (λ s. occurrences s l + c s) out
    → (group_size h (write_shards g l out) + at_group h (pos 0) (length l)
        ≡ group_size h out + at_group h g (length l))
      × Unwritten c (write_shards g l out)
unfolding write_shards occurrences
group_size-write_shards h g [] c out (once, free) =
    (ground arith, (λ s. omega (arith, once s), λ s l. free s (omega arith)))
group_size-write_shards h g (x ∷ xs) c out u =
    let (sizes, left) =
      group_size-write_shards h g xs c (set out x g) (Unwritten-step g x xs c out u) in
    (
      omega (
        arith,
        sizes,
        group_size-set h g (pos 0) out x (first-free x xs c out u),
        at_group-length h (pos 0) x xs,
        at_group-length h g x xs,
      ),
      left,
    )

group_size-write_table :
    (h : ℤ) (m : Table) (out : List ℤ)
    → Unwritten (λ s. copies s m) out
    → group_size h (write_table m out) + at_group h (pos 0) (total m)
      ≡ group_size h out + table_sum (at_group h) m
unfolding write_table copies table_sum
group_size-write_table h [] out u = ground arith
group_size-write_table h ((g, l) ∷ m) out u =
    let (one, left) = group_size-write_shards h g l (λ s. copies s m) out u in
    omega (
      arith,
      one,
      group_size-write_table h m (write_shards g l out) left,
      at_group-add h (pos 0) (length l) (total m),
    )

-- A table that holds each of the shards once gives the array in which each group has its shards.
pub group_size-shards_array :
    (h : ℤ) (m : Table)
    → ((s : ℕ) → copies s m ≡ (if ltb s n_shards then 1 else 0))
    → total m ≡ n_shards
    → Keyed m
    → group_size h (shards_array m) ≡ length (shards_of h m)
unfolding shards_array
group_size-shards_array h m once all keyed =
    let u : Unwritten (λ s. copies s m) (replicate n_shards (pos 0)) = (
      λ s. ground (arith, once s),
      λ s l. get_elem?-replicate (pos 0) n_shards s (ground (arith, once s)),
    ) in
    let same = ap (at_group h (pos 0)) all in
    omega (
      arith,
      group_size-write_table h m (replicate n_shards (pos 0)) u,
      group_size-replicate h (pos 0) n_shards,
      keyed h,
    )

pub shards_of-In : (g : ℤ) (m : Table) → 0 < length (shards_of g m) → In g (gids_of m)
unfolding shards_of lookup gids_of
shards_of-In g [] p = absurd (ground (arith, p))
shards_of-In g ((h, l) ∷ m) p = ground (arith, shards_of-In g m, ==ℤ_iff h g)
