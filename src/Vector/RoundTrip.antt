-- ===== src/Vector/RoundTrip.antt =====
-- src/models/vector.go: what is written reads back, and reading stays inside the bytes.
use mathlib.Core.List.{append_assoc}
use nexus_mind.Prelude.{
  ℕ, zero, suc, ◌+◌, ◌*◌, ◌/◌, ◌%◌, ◌^◌, ◌<◌, ◌≡◌, refl, Bool, false, some, List, [], ◌∷◌, ◌++◌,
  length, take, drop, ltb, if◌then◌else◌, arith, length-append, ◌∙◌, ap,
}
use nexus_mind.Prelude.Int.{ℤ, pos, negsuc}
use nexus_mind.Vector.Numbers.{Float32}
use nexus_mind.Vector.Values.{Fields, no_fields}
use nexus_mind.Vector.Model.{Vector}
use nexus_mind.Vector.Bytes.{
  Result, ok, put_uint, uint, to_uint64, to_int64, slice, put_values, read_values, serialize,
  serialize_metadata, deserialize_metadata, read_deleted, read_tail, read_metadata, read_body,
  deserialize_vector,
}

length-put_uint : (width n : ℕ) → length (put_uint width n) ≡ width
unfolding put_uint
length-put_uint zero n = refl
length-put_uint (suc width) n = ap suc (length-put_uint width (n / 256))

uint-put_uint :
    (width n : ℕ) (rest : List ℕ) → n < 256 ^ width → uint width (put_uint width n ++ rest) ≡ ok n
unfolding uint put_uint
uint-put_uint zero n rest h = let z : n ≡ 0 = omega arith in rw z refl
uint-put_uint (suc width) n rest h =
    let e : n % 256 + 256 * (n / 256) ≡ n = omega arith in
    rw (uint-put_uint width (n / 256) rest (omega arith)) (ap ok e)

module _ {A : Type 0} where
  drop_append : (xs ys : List A) → drop (length xs) (xs ++ ys) ≡ ys
  drop_append [] ys = refl
  drop_append (x ∷ xs) ys = drop_append xs ys

  take_append : (xs ys : List A) → take (length xs) (xs ++ ys) ≡ xs
  take_append [] ys = refl
  take_append (x ∷ xs) ys = ap (λ t. x ∷ t) (take_append xs ys)

-- The bytes that stand first are what a slice of their number gives.
slice_append : (xs ys : List ℕ) → slice (length xs) (xs ++ ys) ≡ ok xs
unfolding slice
slice_append xs ys =
    let e : ltb (length (xs ++ ys)) (length xs) ≡ false = ground (arith, length-append xs ys) in
    rw e (ap ok (take_append xs ys))

-- The time fits an int64.
abbrev pub IsInt64 : ℤ → Type 0
IsInt64 (pos n) = n < 2 ^ 63
IsInt64 (negsuc n) = n < 2 ^ 63

to_uint64-lt : (t : ℤ) → to_uint64 t < 256 ^ 8
unfolding to_uint64
to_uint64-lt (pos n) = omega arith
to_uint64-lt (negsuc n) = omega arith

to_int64-to_uint64 : (t : ℤ) → IsInt64 t → to_int64 (to_uint64 t) ≡ t
unfolding to_int64 to_uint64
to_int64-to_uint64 (pos n) h = ground arith
to_int64-to_uint64 (negsuc n) h = ground arith

module _ {F : Type 0} ⦃fl : Float32 F⦄ where
  -- The numbers have 32 bits, from which they are read back.
  abbrev pub HaveBits : List F → Type 0
  HaveBits [] = Unit {0}
  HaveBits (x ∷ xs) = (fl.bits x < 2 ^ 32) × (fl.from_bits (fl.bits x) ≡ x) × HaveBits xs

  length-put_values : (xs : List F) → length (put_values xs) ≡ length xs * 4
  unfolding put_values
  length-put_values [] = refl
  length-put_values (x ∷ xs) = omega (
    arith,
    length-append (put_uint 4 (fl.bits x)) (put_values xs),
    length-put_uint 4 (fl.bits x),
    length-put_values xs,
  )

  read_values_step :
      (n : ℕ) (r t : List ℕ) (b : ℕ) (xs : List F) (rest : List ℕ)
      → uint 4 r ≡ ok b
      → drop 4 r ≡ t
      → read_values n t ≡ ok (xs, rest)
      → read_values (suc n) r ≡ ok (fl.from_bits b ∷ xs, rest)
  unfolding read_values
  read_values_step n r t b xs rest e d h = ground (arith, e, d, h)

  read_values-put_values :
      (xs : List F) (rest : List ℕ)
      → HaveBits xs
      → read_values (length xs) (put_values xs ++ rest) ≡ ok (xs, rest)
  unfolding put_values
  read_values-put_values [] rest h = unfold read_values in refl
  read_values-put_values (x ∷ xs) rest h =
      let tail = put_values xs ++ rest in
      ap (read_values (length (x ∷ xs)))
        (append_assoc (put_uint 4 (fl.bits x)) (put_values xs) rest)
      ∙ read_values_step (length xs) (put_uint 4 (fl.bits x) ++ tail) tail (fl.bits x) xs rest
          (uint-put_uint 4 (fl.bits x) tail (h.0)) (unfold put_uint in refl)
          (read_values-put_values xs rest (h.2))
      ∙ ap (λ y. ok (y ∷ xs, rest)) (h.1)

-- A 32-bit length and then the bytes: the length is read, and there are enough bytes.
module _ (n : ℕ) (rest : List ℕ) (small : n < 2 ^ 32) where
  uint_length : uint 4 (put_uint 4 n ++ rest) ≡ ok n
  uint_length = uint-put_uint 4 n rest small

  drop_length : drop 4 (put_uint 4 n ++ rest) ≡ rest
  drop_length = unfold put_uint in refl

  length_long : ltb (length (put_uint 4 n ++ rest)) 4 ≡ false
  length_long = ground (arith, length-append (put_uint 4 n) rest, length-put_uint 4 n)

prefix_long : (xs ys : List ℕ) → ltb (length (xs ++ ys)) (length xs) ≡ false
prefix_long xs ys = ground (arith, length-append xs ys)

module _ {F D : Type 0} ⦃fl : Float32 F⦄ where
  read_tail-put :
      (id : List ℕ) (values : List F) (metadata : Fields D) (t : ℤ) (deleted : Bool)
      → IsInt64 t
      → read_tail id values metadata (put_uint 8 (to_uint64 t) ++ ((if deleted then 1 else 0) ∷ []))
        ≡ ok (record {
          id = id;
          values = values;
          metadata = some metadata;
          timestamp = t;
          deleted = deleted;
        })
  unfolding read_tail read_deleted
  read_tail-put id values metadata t deleted h =
      let flag : List ℕ = (if deleted then 1 else 0) ∷ [] in
      let long : ltb (length (put_uint 8 (to_uint64 t) ++ flag)) 8 ≡ false =
        ground
          (arith, length-append (put_uint 8 (to_uint64 t)) flag, length-put_uint 8 (to_uint64 t)) in
      let d : drop 8 (put_uint 8 (to_uint64 t) ++ flag) ≡ flag = unfold put_uint in refl in
      ground (
        arith,
        long,
        d,
        uint-put_uint 8 (to_uint64 t) flag (to_uint64-lt t),
        to_int64-to_uint64 t h,
      )

  read_metadata-put :
      (id : List ℕ) (values : List F) (bytes rest : List ℕ) (r : Result (Vector F D))
      → length bytes < 2 ^ 32
      → read_tail id values no_fields rest ≡ r
      → read_metadata id values (put_uint 4 (length bytes) ++ (bytes ++ rest)) ≡ r
  unfolding read_metadata deserialize_metadata
  read_metadata-put id values bytes rest r h e = ground (
    arith,
    e,
    length_long (length bytes) (bytes ++ rest) h,
    uint_length (length bytes) (bytes ++ rest) h,
    drop_length (length bytes) (bytes ++ rest) h,
    prefix_long bytes rest,
    slice_append bytes rest,
    drop_append bytes rest,
  )

  read_body-put :
      (id : List ℕ) (values : List F) (rest : List ℕ) (r : Result (Vector F D))
      → length values < 2 ^ 32
      → HaveBits values
      → read_metadata id values rest ≡ r
      → read_body id (put_uint 4 (length values) ++ (put_values values ++ rest)) ≡ r
  unfolding read_body
  read_body-put id values rest r h b e =
      let n = length values in
      let tail = put_values values ++ rest in
      ground (
        arith,
        e,
        length_long n tail h,
        uint_length n tail h,
        drop_length n tail h,
        prefix_long (put_values values) rest,
        length-put_values values,
        read_values-put_values values rest b,
      )

  deserialize_vector-put :
      (id rest : List ℕ) (r : Result (Vector F D))
      → length id < 2 ^ 32
      → read_body id rest ≡ r
      → deserialize_vector (put_uint 4 (length id) ++ (id ++ rest)) ≡ r
  unfolding deserialize_vector
  deserialize_vector-put id rest r h e = ground (
    arith,
    e,
    length_long (length id) (id ++ rest) h,
    uint_length (length id) (id ++ rest) h,
    drop_length (length id) (id ++ rest) h,
    prefix_long id rest,
    slice_append id rest,
    drop_append id rest,
  )

  -- A vector whose id and number of values fit 32 bits, whose time fits an int64, and whose numbers
  -- are read back from their 32 bits, is read back from its bytes, but with empty metadata whatever
  -- it had.
  pub deserialize_vector-serialize :
      (v : Vector F D)
      → length v.id < 2 ^ 32
      → length v.values < 2 ^ 32
      → IsInt64 v.timestamp
      → HaveBits v.values
      → deserialize_vector (serialize v) ≡ ok (record v { metadata = some no_fields })
  unfolding serialize serialize_metadata
  deserialize_vector-serialize v p q t b =
      let i : length v.id % 2 ^ 32 ≡ length v.id = omega arith in
      let n : length v.values % 2 ^ 32 ≡ length v.values = omega arith in
      rw (i, n)
        (deserialize_vector-put v.id _ _ p (
          read_body-put v.id v.values _ _ q b (
            read_metadata-put v.id v.values [] _ _ (omega arith)
              (read_tail-put v.id v.values no_fields v.timestamp v.deleted t))))
