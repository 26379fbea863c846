-- ===== src/Raft/Majority.antt =====
-- src/raft/raft_election.go: counting peers, and why two majorities share one.
use nexus_mind.Prelude.{
  ℕ, zero, suc, ◌+◌, ◌<◌, ◌≤◌, ◌≡◌, inl, inr, Bool, true, false, Bool-cases, arith, if◌then◌else◌,
  ◌==◌, ==_iff,
}

-- How many of the peers `0`, …, `n - 1` have the property.
unfoldable pub count : ℕ → (ℕ → Bool) → ℕ
count zero f = 0
count (suc n) f = (if f n then 1 else 0) + count n f

pub count_mono :
    (n : ℕ) (f g : ℕ → Bool) → ((p : ℕ) → f p ≡ true → g p ≡ true) → count n f ≤ count n g
unfolding count
count_mono zero f g h = omega arith
count_mono (suc n) f g h = ground (arith, h n, count_mono n f g h)

pub count-mem : (n p : ℕ) (f : ℕ → Bool) → p < n → f p ≡ true → 0 < count n f
unfolding count
count-mem zero p f l e = absurd (omega arith)
count-mem (suc n) p f l e = elim (Bool-cases (p == n)) [
  | inl q ↦ let k : p ≡ n = (==_iff p n).0 q in ground (arith, rw k at e)
  | inr q ↦ ground (arith, count-mem n p f, ==_iff p n)
]

-- One peer more has it.
pub count_more :
    (n p : ℕ) (f g : ℕ → Bool)
    → p < n
    → f p ≡ false
    → g p ≡ true
    → ((q : ℕ) → f q ≡ true → g q ≡ true)
    → suc (count n f) ≤ count n g
unfolding count
count_more zero p f g l a b h = absurd (omega arith)
count_more (suc n) p f g l a b h = elim (Bool-cases (p == n)) [
  | inl q ↦
      let k : p ≡ n = (==_iff p n).0 q in ground (arith, rw k at a, rw k at b, count_mono n f g h)
  | inr q ↦ ground (arith, h n, count_more n p f g, h, ==_iff p n)
]

pub overlap :
    (n : ℕ) (f g : ℕ → Bool) → n < count n f + count n g → (p : ℕ) × (f p ≡ true) × (g p ≡ true)
unfolding count
overlap zero f g h = absurd (omega arith)
overlap (suc n) f g h = elim (Bool-cases (f n)) [
  | inl a ↦ (elim (Bool-cases (g n)) [
    | inl b ↦ (n, a, b)
    | inr b ↦ overlap n f g (ground (arith, a, b, h))
  ])
  | inr a ↦ overlap n f g (ground (arith, a, h))
]
