-- ===== src/Vector/Atomic.antt =====
-- src/models/vector_collection.go: what is inserted is inserted in every index, or nowhere.
use Prim.Native.String.{String}
use nexus_mind.Prelude.{
  ℕ, ◌≡◌, refl, ◌⊎◌, inl, inr, Option, none, some, List, [], ◌∷◌, length, ==_iff, arith,
  Option-cases,
}
use nexus_mind.Prelude.Int.{ℤ}
use nexus_mind.Prelude.Dict.{Dict, string_eq, bytes_eq, insert}
use nexus_mind.Vector.Numbers.{Float32}
use nexus_mind.Vector.Model.{Vector}
use nexus_mind.Vector.Distance.{DistanceMetric}
use nexus_mind.Vector.LinearIndex.{Error, LinearIndex, stored, insert_vector, batch_insert, delete}
use nexus_mind.Vector.Collection.{
  VectorCollection, new_vector_collection, add_index, validate, validate_all, for_indexes,
  change_indexes, or_same, insert_one, insert_batch, delete_vector,
}

-- Each index has the dimension `n`.
abbrev pub AllSized : {F D : Type 0} → ℕ → Dict String (LinearIndex F D) → Type 0
AllSized n [] = Unit {0}
AllSized n (e ∷ rest) = ((e.1).dimension ≡ n) × AllSized n rest

module _ {F D : Type 0} where
  AllSized-insert :
      (n : ℕ) (name : String) (index : LinearIndex F D) (indexes : Dict String (LinearIndex F D))
      → index.dimension ≡ n
      → AllSized n indexes
      → AllSized n (insert name index indexes)
  unfolding insert
  AllSized-insert n name index [] e a = (e, tt)
  AllSized-insert n name index (x ∷ rest) e a = ground (arith, AllSized-insert n name index rest e)

  for_indexes-AllSized :
      (f : LinearIndex F D → Option Error × LinearIndex F D) (n : ℕ)
      (indexes : Dict String (LinearIndex F D))
      → ((index : LinearIndex F D) → ((f index).1).dimension ≡ index.dimension)
      → AllSized n indexes
      → AllSized n ((for_indexes f indexes).1)
  unfolding for_indexes
  for_indexes-AllSized f n [] k a = tt
  for_indexes-AllSized f n (x ∷ rest) k a = ground (arith, k (x.1), for_indexes-AllSized f n rest k)

  change_indexes-AllSized :
      (f : LinearIndex F D → Option Error × LinearIndex F D) (now : ℤ) (c : VectorCollection F D)
      → ((index : LinearIndex F D) → ((f index).1).dimension ≡ index.dimension)
      → AllSized c.dimension c.indexes
      → AllSized (((change_indexes f now c).1).dimension) (((change_indexes f now c).1).indexes)
  unfolding change_indexes
  change_indexes-AllSized f now c k a =
      ground (arith, for_indexes-AllSized f c.dimension c.indexes k a)

  delete-dimension :
      (id : List ℕ) (now : ℤ) (index : LinearIndex F D)
      → ((or_same index (delete id now index)).1).dimension ≡ index.dimension
  unfolding delete or_same
  delete-dimension id now index = ground arith

module _ {F D : Type 0} ⦃fl : Float32 F⦄ where
  insert_vector-dimension :
      (v : Vector F D) (index : LinearIndex F D)
      → ((or_same index (insert_vector v index)).1).dimension ≡ index.dimension
  unfolding insert_vector or_same
  insert_vector-dimension v index = ground arith

  batch_insert-dimension :
      (vs : List (Vector F D)) (index : LinearIndex F D)
      → ((batch_insert vs index).1).dimension ≡ index.dimension
  unfolding batch_insert insert_vector
  batch_insert-dimension [] index = refl
  batch_insert-dimension (v ∷ vs) index = ground (
    arith,
    batch_insert-dimension vs
        (record index { vectors = insert v.id (stored index v) index.vectors }),
  )

  -- A collection that the operations have made.
  pub data Made : VectorCollection F D → Type 0 where
    made_new :
        (name : List ℕ) (dimension : ℕ) (metric : DistanceMetric) (now : ℤ)
        → Made (new_vector_collection name dimension metric now)
    made_index :
        {c : VectorCollection F D} (name : String) (index : LinearIndex F D) (now : ℤ)
        → Made c
        → Made ((add_index name index now c).1)
    made_insert :
        {c : VectorCollection F D} (v : Vector F D) (now : ℤ)
        → Made c
        → Made ((insert_one v now c).1)
    made_batch :
        {c : VectorCollection F D} (vs : List (Vector F D)) (now : ℤ)
        → Made c
        → Made ((insert_batch vs now c).1)
    made_delete :
        {c : VectorCollection F D} (id : List ℕ) (now : ℤ)
        → Made c
        → Made ((delete_vector id now c).1)

  Made-AllSized : {c : VectorCollection F D} → Made c → AllSized c.dimension c.indexes
  unfolding new_vector_collection add_index insert_one insert_batch delete_vector
  Made-AllSized (made_new name dimension metric now) = tt
  Made-AllSized (made_index {c} name index now m) = ground (
    arith,
    ==_iff index.dimension c.dimension,
    AllSized-insert c.dimension name index c.indexes,
    Made-AllSized m,
  )
  Made-AllSized (made_insert {c} v now m) = ground (
    arith,
    change_indexes-AllSized (λ index. or_same index (insert_vector v index)) now c
        (insert_vector-dimension v) (Made-AllSized m),
    Made-AllSized m,
  )
  Made-AllSized (made_batch {c} vs now m) = ground (
    arith,
    change_indexes-AllSized (batch_insert vs) now c (batch_insert-dimension vs) (Made-AllSized m),
    Made-AllSized m,
  )
  Made-AllSized (made_delete {c} id now m) =
      change_indexes-AllSized (λ index. or_same index (delete id now index)) now c
        (delete-dimension id now) (Made-AllSized m)

  -- The reference: each vector stored under its id, the later ones over the earlier.
  unfoldable pub insert_all : List (Vector F D) → LinearIndex F D → LinearIndex F D
  insert_all [] index = index
  insert_all (v ∷ vs) index =
      insert_all vs (record index { vectors = insert v.id (stored index v) index.vectors })

  unfoldable pub in_each :
      (LinearIndex F D → LinearIndex F D)
      → Dict String (LinearIndex F D)
      → Dict String (LinearIndex F D)
  in_each f [] = []
  in_each f (x ∷ rest) = (x.0, f (x.1)) ∷ in_each f rest

  -- Each vector passes the checks.
  abbrev pub AllValid : VectorCollection F D → List (Vector F D) → Type 0
  AllValid c [] = Unit {0}
  AllValid c (v ∷ vs) = (validate c v ≡ none) × AllValid c vs

  abbrev AllOf : ℕ → List (Vector F D) → Type 0
  AllOf n [] = Unit {0}
  AllOf n (v ∷ vs) = (length v.values ≡ n) × AllOf n vs

  validate-dimension :
      (c : VectorCollection F D) (v : Vector F D)
      → validate c v ≡ none
      → length v.values ≡ c.dimension
  unfolding validate
  validate-dimension c v e = ground (arith, ==_iff (length v.values) c.dimension)

  AllValid-AllOf :
      (c : VectorCollection F D) (vs : List (Vector F D)) → AllValid c vs → AllOf c.dimension vs
  AllValid-AllOf c [] a = tt
  AllValid-AllOf c (v ∷ vs) a = (validate-dimension c v (a.0), AllValid-AllOf c vs (a.1))

  validate_all-AllValid :
      (c : VectorCollection F D) (vs : List (Vector F D)) → validate_all c vs ≡ none → AllValid c vs
  unfolding validate_all
  validate_all-AllValid c [] e = tt
  validate_all-AllValid c (v ∷ vs) e = ground (arith, validate_all-AllValid c vs)

  batch_insert-insert_all :
      (vs : List (Vector F D)) (index : LinearIndex F D)
      → AllOf index.dimension vs
      → batch_insert vs index ≡ (none, insert_all vs index)
  unfolding batch_insert insert_all insert_vector
  batch_insert-insert_all [] index a = refl
  batch_insert-insert_all (v ∷ vs) index a = ground (
    arith,
    ==_iff (length v.values) index.dimension,
    batch_insert-insert_all vs
        (record index { vectors = insert v.id (stored index v) index.vectors }),
  )

  for_indexes-batch_insert :
      (n : ℕ) (vs : List (Vector F D)) (indexes : Dict String (LinearIndex F D))
      → AllOf n vs
      → AllSized n indexes
      → for_indexes (batch_insert vs) indexes ≡ (none, in_each (insert_all vs) indexes)
  unfolding for_indexes in_each
  for_indexes-batch_insert n vs [] a s = refl
  for_indexes-batch_insert n vs (x ∷ rest) a s =
      let b : AllOf ((x.1).dimension) vs = rw (s.0) a in
      ground (arith, batch_insert-insert_all vs (x.1) b, for_indexes-batch_insert n vs rest a (s.1))

  -- A batch given to a collection that the operations have made either fails and leaves the
  -- collection as it is, or consists of vectors that pass the checks, and then each index takes
  -- every vector of the batch under its id, the later over the earlier.
  pub insert_batch_lem :
      (c : VectorCollection F D) (vs : List (Vector F D)) (now : ℤ)
      → Made c
      → ((e : Error) × (insert_batch vs now c ≡ (some e, c)))
        ⊎ (AllValid c vs
            × (insert_batch vs now c ≡ (
              none,
              record c { indexes = in_each (insert_all vs) c.indexes; updated_at = now },
            )))
  unfolding insert_batch change_indexes
  insert_batch_lem c vs now m = elim (Option-cases (validate_all c vs)) [
    | inr (e, q) ↦ inl (e, rw (q, insert_batch) refl)
    | inl q ↦
        let a = validate_all-AllValid c vs q in
        let f =
          for_indexes-batch_insert c.dimension vs c.indexes (AllValid-AllOf c vs a)
            (Made-AllSized m) in
        inr (a, ground (arith, q, f))
  ]
