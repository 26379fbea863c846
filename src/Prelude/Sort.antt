-- ===== src/Prelude/Sort.antt =====
-- `sort.Ints` of the standard library, as insertion sort, and what counting sees of it.
use nexus_mind.Prelude.{
  ℕ, zero, suc, ◌+◌, ◌≤◌, ◌≡◌, refl, List, [], ◌∷◌, arith, leb, length, if◌then◌else◌, some,
  get_elem?,
}

unfoldable pub insert_int : ℕ → List ℕ → List ℕ
insert_int x [] = x ∷ []
insert_int x (y ∷ ys) = if leb x y then x ∷ y ∷ ys else y ∷ insert_int x ys

unfoldable pub sort_ints : List ℕ → List ℕ
unfolding insert_int
sort_ints [] = []
sort_ints (x ∷ xs) = insert_int x (sort_ints xs)

-- How many entries are at least `k`.
abbrev pub count_ge : ℕ → List ℕ → ℕ
count_ge k [] = 0
count_ge k (x ∷ xs) = (if leb k x then 1 else 0) + count_ge k xs

count_ge-insert_int : (k x : ℕ) (xs : List ℕ) → count_ge k (insert_int x xs) ≡ count_ge k (x ∷ xs)
unfolding insert_int
count_ge-insert_int k x [] = refl
count_ge-insert_int k x (y ∷ ys) = ground (arith, count_ge-insert_int k x ys)

pub count_ge-sort_ints : (k : ℕ) (xs : List ℕ) → count_ge k (sort_ints xs) ≡ count_ge k xs
unfolding sort_ints
count_ge-sort_ints k [] = refl
count_ge-sort_ints k (x ∷ xs) =
    omega (arith, count_ge-insert_int k x (sort_ints xs), count_ge-sort_ints k xs)

length-insert_int : (x : ℕ) (xs : List ℕ) → length (insert_int x xs) ≡ suc (length xs)
unfolding insert_int
length-insert_int x [] = refl
length-insert_int x (y ∷ ys) = ground (arith, length-insert_int x ys)

pub length-sort_ints : (xs : List ℕ) → length (sort_ints xs) ≡ length xs
unfolding sort_ints
length-sort_ints [] = refl
length-sort_ints (x ∷ xs) = omega (arith, length-insert_int x (sort_ints xs), length-sort_ints xs)

-- Every entry is at least `k`.
abbrev AllGe : ℕ → List ℕ → Type 0
AllGe k [] = Unit {0}
AllGe k (x ∷ xs) = (k ≤ x) × AllGe k xs

AllGe-weaken : (j k : ℕ) (xs : List ℕ) → j ≤ k → AllGe k xs → AllGe j xs
AllGe-weaken j k [] h a = tt
AllGe-weaken j k (x ∷ xs) h a = (omega arith, AllGe-weaken j k xs h a.1)

abbrev IsSorted : List ℕ → Type 0
IsSorted [] = Unit {0}
IsSorted (x ∷ xs) = AllGe x xs × IsSorted xs

AllGe-insert_int : (k x : ℕ) (xs : List ℕ) → k ≤ x → AllGe k xs → AllGe k (insert_int x xs)
unfolding insert_int
AllGe-insert_int k x [] h a = (h, tt)
AllGe-insert_int k x (y ∷ ys) h a = ground (arith, AllGe-insert_int k x ys h a.1)

insert_int-IsSorted : (x : ℕ) (xs : List ℕ) → IsSorted xs → IsSorted (insert_int x xs)
unfolding insert_int
insert_int-IsSorted x [] s = (tt, tt)
insert_int-IsSorted x (y ∷ ys) s =
    ground (arith, insert_int-IsSorted x ys s.1, AllGe-insert_int y x ys, AllGe-weaken x y ys)

sort_ints-IsSorted : (xs : List ℕ) → IsSorted (sort_ints xs)
unfolding sort_ints
sort_ints-IsSorted [] = tt
sort_ints-IsSorted (x ∷ xs) = insert_int-IsSorted x (sort_ints xs) (sort_ints-IsSorted xs)

count_ge_all : (k : ℕ) (xs : List ℕ) → AllGe k xs → count_ge k xs ≡ length xs
count_ge_all k [] a = refl
count_ge_all k (x ∷ xs) a = ground (arith, count_ge_all k xs a.1)

-- In a sorted list the entries from position `i` on are at least the one at `i`.
count_ge_sorted :
    (xs : List ℕ) (i v : ℕ) → IsSorted xs → get_elem? xs i ≡ some v → length xs ≤ count_ge v xs + i
count_ge_sorted [] i v s h = omega arith
count_ge_sorted (x ∷ xs) zero v s h = ground (arith, count_ge_all x xs s.0)
count_ge_sorted (x ∷ xs) (suc i) v s h = ground (arith, count_ge_sorted xs i v s.1 h)

-- At least `length xs - i` entries of `xs` are no smaller than the `i`-th smallest.
pub count_ge_nth :
    (xs : List ℕ) (i v : ℕ) → get_elem? (sort_ints xs) i ≡ some v → length xs ≤ count_ge v xs + i
count_ge_nth xs i v h = omega (
  arith,
  count_ge_sorted (sort_ints xs) i v (sort_ints-IsSorted xs) h,
  count_ge-sort_ints v xs,
  length-sort_ints xs,
)
