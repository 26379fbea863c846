-- ===== src/Prelude/Slice.antt =====
-- `sort.Slice` of the standard library, as insertion sort by `less`; equal entries keep their order.
use mathlib.Core.List.Memᴰ
use mathlib.Core.List.{Memᴰ}
use nexus_mind.Prelude.{
  ℕ, zero, suc, ◌≡◌, refl, sym, ap, ◌⊎◌, inl, inr, List, [], ◌∷◌, Bool, true, false, Bool-cases,
  arith, length, take, if◌then◌else◌,
}
use mathlib.Core.Path.{subst}

module _ {A : Type 0} (less : A → A → Bool) where
  unfoldable pub insert_by : A → List A → List A
  insert_by x [] = x ∷ []
  insert_by x (y ∷ ys) = if less y x then y ∷ insert_by x ys else x ∷ y ∷ ys

  unfoldable pub sort_slice : List A → List A
  unfolding insert_by
  sort_slice [] = []
  sort_slice (x ∷ xs) = insert_by x (sort_slice xs)

module _ {A : Type 0} (less : A → A → Bool) where
  -- No entry of the list is before `x`.
  abbrev pub NoneBefore : A → List A → Type 0
  NoneBefore x [] = Unit {0}
  NoneBefore x (y ∷ ys) = (less y x ≡ false) × NoneBefore x ys

  -- `x` is before no entry of the list.
  abbrev pub BeforeNone : A → List A → Type 0
  BeforeNone x [] = Unit {0}
  BeforeNone x (y ∷ ys) = (less x y ≡ false) × BeforeNone x ys

  abbrev pub IsSorted : List A → Type 0
  IsSorted [] = Unit {0}
  IsSorted (x ∷ xs) = NoneBefore x xs × IsSorted xs

  insert_by-mem : (x r : A) (xs : List A) → Memᴰ r (insert_by less x xs) → (r ≡ x) ⊎ Memᴰ r xs
  unfolding insert_by
  insert_by-mem x r [] m = Memᴰ.cases_cons m
  insert_by-mem x r (y ∷ ys) m = elim (Bool-cases (less y x)) [
    | inl e ↦
        (elim (Memᴰ.cases_cons
          (subst (λ b. Memᴰ r (if b then y ∷ insert_by less x ys else x ∷ y ∷ ys)) e m)) [
            | inl q ↦ inr (Memᴰ.head q)
            | inr n ↦ (elim (insert_by-mem x r ys n) [ inl q ↦ inl q | inr k ↦ inr (Memᴰ.tail k) ])
          ])
    | inr e ↦
        Memᴰ.cases_cons
          (subst (λ b. Memᴰ r (if b then y ∷ insert_by less x ys else x ∷ y ∷ ys)) e m)
  ]

  mem-insert_by : (x r : A) (xs : List A) → (r ≡ x) ⊎ Memᴰ r xs → Memᴰ r (insert_by less x xs)
  unfolding insert_by
  mem-insert_by x r [] (inl q) = Memᴰ.head q
  mem-insert_by x r [] (inr m) = Memᴰ.tail m
  mem-insert_by x r (y ∷ ys) m = elim (Bool-cases (less y x)) [
    | inl e ↦
        subst (λ b. Memᴰ r (if b then y ∷ insert_by less x ys else x ∷ y ∷ ys)) (sym e)
          (elim m [
            | inl q ↦ Memᴰ.tail (mem-insert_by x r ys (inl q))
            | inr k ↦ (elim (Memᴰ.cases_cons k) [
              | inl q ↦ Memᴰ.head q
              | inr n ↦ Memᴰ.tail (mem-insert_by x r ys (inr n))
            ])
          ])
    | inr e ↦
        subst (λ b. Memᴰ r (if b then y ∷ insert_by less x ys else x ∷ y ∷ ys)) (sym e)
          (elim m [ inl q ↦ Memᴰ.head q | inr k ↦ Memᴰ.tail k ])
  ]

  pub sort_slice-mem : (r : A) (xs : List A) → Memᴰ r (sort_slice less xs) → Memᴰ r xs
  unfolding sort_slice
  sort_slice-mem r [] m = m
  sort_slice-mem r (x ∷ xs) m = elim (insert_by-mem x r (sort_slice less xs) m) [
    | inl q ↦ Memᴰ.head q
    | inr n ↦ Memᴰ.tail (sort_slice-mem r xs n)
  ]

  pub mem-sort_slice : (r : A) (xs : List A) → Memᴰ r xs → Memᴰ r (sort_slice less xs)
  unfolding sort_slice
  mem-sort_slice r [] m = elim m [ ]
  mem-sort_slice r (x ∷ xs) (Memᴰ.head q) = mem-insert_by x r (sort_slice less xs) (inl q)
  mem-sort_slice r (x ∷ xs) (Memᴰ.tail m) =
      mem-insert_by x r (sort_slice less xs) (inr (mem-sort_slice r xs m))

  NoneBefore-mem : (x r : A) (xs : List A) → NoneBefore x xs → Memᴰ r xs → less r x ≡ false
  NoneBefore-mem x r [] n m = elim m [ ]
  NoneBefore-mem x r (y ∷ ys) n (Memᴰ.head q) = rw q (n.0)
  NoneBefore-mem x r (y ∷ ys) n (Memᴰ.tail m) = NoneBefore-mem x r ys (n.1) m

  NoneBefore-take : (k : ℕ) (x : A) (xs : List A) → NoneBefore x xs → NoneBefore x (take k xs)
  NoneBefore-take zero x xs n = tt
  NoneBefore-take (suc k) x [] n = tt
  NoneBefore-take (suc k) x (y ∷ ys) n = (n.0, NoneBefore-take k x ys (n.1))

  pub take-IsSorted : (k : ℕ) (xs : List A) → IsSorted xs → IsSorted (take k xs)
  take-IsSorted zero xs s = tt
  take-IsSorted (suc k) [] s = tt
  take-IsSorted (suc k) (x ∷ xs) s = (NoneBefore-take k x xs (s.0), take-IsSorted k xs (s.1))

  pub take-mem : (k : ℕ) (r : A) (xs : List A) → Memᴰ r (take k xs) → Memᴰ r xs
  take-mem zero r xs m = absurd (Memᴰ.not-nil m)
  take-mem (suc k) r [] m = m
  take-mem (suc k) r (x ∷ xs) m = elim (Memᴰ.cases_cons m) [
    | inl q ↦ Memᴰ.head q
    | inr n ↦ Memᴰ.tail (take-mem k r xs n)
  ]

  -- What the first `k` of a sorted list leave out is before none of them.
  pub take_complete :
      (k : ℕ) (r : A) (xs : List A)
      → IsSorted xs
      → Memᴰ r xs
      → Memᴰ r (take k xs) ⊎ ((length (take k xs) ≡ k) × BeforeNone r (take k xs))
  take_complete zero r xs s m = inr (refl, tt)
  take_complete (suc k) r [] s m = elim m [ ]
  take_complete (suc k) r (x ∷ xs) s (Memᴰ.head q) = inl (Memᴰ.head q)
  take_complete (suc k) r (x ∷ xs) s (Memᴰ.tail m) = elim (take_complete k r xs (s.1) m) [
    | inl n ↦ inl (Memᴰ.tail n)
    | inr h ↦ inr (ap suc (h.0), (NoneBefore-mem x r xs (s.0) m, h.1))
  ]

abbrev pub All : {A : Type 0} → (A → Type 0) → List A → Type 0
All P [] = Unit {0}
All P (x ∷ xs) = P x × All P xs

-- `less` is a strict weak order on the entries with the property `P`.
pub record IsWeakOrder {A : Type 0} (less : A → A → Bool) (P : A → Type 0) : Type 0 where
  pub asymmetric : (a b : A) → less a b ≡ true → less b a ≡ false
  pub connected :
      (a b c : A) → P a → P b → P c → less a b ≡ false → less b c ≡ false → less a c ≡ false

module _ {A : Type 0} (less : A → A → Bool) (P : A → Type 0) (w : IsWeakOrder less P) where
  NoneBefore-insert_by :
      (z x : A) (xs : List A)
      → less x z ≡ false
      → NoneBefore less z xs
      → NoneBefore less z (insert_by less x xs)
  unfolding insert_by
  NoneBefore-insert_by z x [] e n = (e, tt)
  NoneBefore-insert_by z x (y ∷ ys) e n = ground (arith, NoneBefore-insert_by z x ys e)

  NoneBefore-step :
      (x y : A) (ys : List A)
      → P x
      → P y
      → All P ys
      → less y x ≡ false
      → NoneBefore less y ys
      → NoneBefore less x ys
  NoneBefore-step x y [] px py a e n = tt
  NoneBefore-step x y (z ∷ zs) px py a e n =
      (w.connected z y x (a.0) py px (n.0) e, NoneBefore-step x y zs px py (a.1) e (n.1))

  All-insert_by : (x : A) (xs : List A) → P x → All P xs → All P (insert_by less x xs)
  unfolding insert_by
  All-insert_by x [] p a = (p, tt)
  All-insert_by x (y ∷ ys) p a = ground (arith, All-insert_by x ys p)

  insert_by-IsSorted :
      (x : A) (xs : List A)
      → P x
      → All P xs
      → IsSorted less xs
      → IsSorted less (insert_by less x xs)
  unfolding insert_by
  insert_by-IsSorted x [] p a s = (tt, tt)
  insert_by-IsSorted x (y ∷ ys) p a s = ground (
    arith,
    insert_by-IsSorted x ys p (a.1) (s.1),
    w.asymmetric y x,
    NoneBefore-insert_by y x ys,
    NoneBefore-step x y ys p (a.0) (a.1),
  )

  sort_slice-All : (xs : List A) → All P xs → All P (sort_slice less xs)
  unfolding sort_slice
  sort_slice-All [] a = tt
  sort_slice-All (x ∷ xs) a = All-insert_by x (sort_slice less xs) (a.0) (sort_slice-All xs (a.1))

  pub sort_slice-IsSorted : (xs : List A) → All P xs → IsSorted less (sort_slice less xs)
  unfolding sort_slice
  sort_slice-IsSorted [] a = tt
  sort_slice-IsSorted (x ∷ xs) a =
      insert_by-IsSorted x (sort_slice less xs) (a.0) (sort_slice-All xs (a.1))
        (sort_slice-IsSorted xs (a.1))
