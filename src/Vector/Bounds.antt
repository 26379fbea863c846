-- ===== src/Vector/Bounds.antt =====
-- src/models/vector.go: reading a vector from any bytes stays inside them.
use nexus_mind.Prelude.{
  ℕ, zero, suc, ◌+◌, ◌*◌, ◌≤◌, ◌≡◌, refl, List, [], ◌∷◌, length, drop, take, ltb, arith,
  length-drop, length-take, Bool-cases, inl, inr,
}
use nexus_mind.Vector.Numbers.{Float32}
use nexus_mind.Vector.Values.{Fields, no_fields}
use nexus_mind.Vector.Model.{Vector}
use nexus_mind.Vector.Bytes.{
  Result, ok, err, panics, uint, slice, read_values, deserialize_metadata, read_deleted, read_tail,
  read_metadata, read_body, deserialize_vector,
}

uint_total :
    (width : ℕ) (bytes : List ℕ) → width ≤ length bytes → (n : ℕ) × (uint width bytes ≡ ok n)
unfolding uint
uint_total zero bytes h = (0, refl)
uint_total (suc width) [] h = absurd (omega arith)
uint_total (suc width) (b ∷ bytes) h =
    let r = uint_total width bytes (omega arith) in (b + 256 * r.0, rw (r.1) refl)

slice_total : (n : ℕ) (rest : List ℕ) → n ≤ length rest → slice n rest ≡ ok (take n rest)
unfolding slice
slice_total n rest h = ground arith

-- A vector that is read takes no more room than the bytes, and no slice is out of range.
abbrev pub Fits : {F D : Type 0} → ℕ → Result (Vector F D) → Type 0
Fits n (ok v) = length v.id + length v.values * 4 + 21 ≤ n
Fits n (err e) = Unit {0}
Fits n panics = ⊥

-- `n` values are there, and this is what stands after them.
abbrev HasRead : {F : Type 0} → ℕ → ℕ → Result (List F × List ℕ) → Type 0
HasRead n size (ok r) = (length (r.0) ≡ n) × (length (r.1) + n * 4 ≡ size)
HasRead n size _ = ⊥

HasRead-ok :
    {F : Type 0} (n size : ℕ) (r : Result (List F × List ℕ))
    → HasRead n size r
    → (xs : List F) × (left : List ℕ) × (r ≡ ok (xs, left))
      × (length xs ≡ n)
      × (length left + n * 4 ≡ size)
HasRead-ok n size (ok (xs, left)) h = (xs, left, refl, h.0, h.1)
HasRead-ok n size (err e) h = absurd h
HasRead-ok n size panics h = absurd h

module _ (F : Type 0) ⦃fl : Float32 F⦄ where
  read_values_total :
      (n : ℕ) (rest : List ℕ)
      → n * 4 ≤ length rest
      → HasRead {F = F} n (length rest) (read_values n rest)
  unfolding read_values
  read_values_total zero rest h = (refl, omega arith)
  read_values_total (suc n) rest h =
      let u = uint_total 4 rest (omega arith) in
      ground (
        arith,
        u.1,
        length-drop 4 rest,
        read_values_total n (drop 4 rest) (omega (arith, length-drop 4 rest)),
      )

module _ (F D : Type 0) ⦃fl : Float32 F⦄ where
  read_tail-Fits :
      (id : List ℕ) (values : List F) (metadata : Fields D) (rest : List ℕ)
      → Fits (length id + length values * 4 + 12 + length rest) (read_tail id values metadata rest)
  unfolding read_tail read_deleted
  read_tail-Fits id values metadata rest = ground (arith, uint_total 8 rest, length-drop 8 rest)

  read_metadata-Fits :
      (id : List ℕ) (values : List F) (rest : List ℕ)
      → Fits {F = F} {D = D}
          (length id + length values * 4 + 8 + length rest)
          (read_metadata id values rest)
  unfolding read_metadata deserialize_metadata
  read_metadata-Fits id values rest = elim (Bool-cases (ltb (length rest) 4)) [
    | inl short ↦ ground (arith, short)
    | inr long ↦
        let u = uint_total 4 rest (ground (arith, long)) in
        ground (
          arith,
          long,
          u.1,
          slice_total (u.0) (drop 4 rest),
          length-drop 4 rest,
          length-drop (u.0) (drop 4 rest),
          read_tail-Fits id values no_fields (drop (u.0) (drop 4 rest)),
        )
  ]

  read_body-Fits :
      (id rest : List ℕ) → Fits {F = F} {D = D} (length id + 4 + length rest) (read_body id rest)
  unfolding read_body
  read_body-Fits id rest = elim (Bool-cases (ltb (length rest) 4)) [
    | inl short ↦ ground (arith, short)
    | inr long ↦
        let u = uint_total 4 rest (ground (arith, long)) in
        let left = drop 4 rest in
        let split = length-drop 4 rest in
        elim (Bool-cases (ltb (length left) (u.0 * 4))) [
          | inl few ↦ ground (arith, long, u.1, few)
          | inr many ↦
              let r =
                HasRead-ok (u.0) (length left) (read_values (u.0) left)
                  (read_values_total F (u.0) left (ground (arith, many))) in
              ground
                (arith, long, u.1, many, split, r.2, r.3, r.4, read_metadata-Fits id (r.0) (r.1))
        ]
  ]

  -- Reading a vector from any bytes at all never takes a slice out of range; if it gives a vector,
  -- then the id, four bytes for each value, and 21 bytes more are no longer than the bytes read.
  pub deserialize_vector-Fits :
      (bytes : List ℕ) → Fits {F = F} {D = D} (length bytes) (deserialize_vector bytes)
  unfolding deserialize_vector
  deserialize_vector-Fits bytes = elim (Bool-cases (ltb (length bytes) 4)) [
    | inl short ↦ ground (arith, short)
    | inr long ↦
        let u = uint_total 4 bytes (ground (arith, long)) in
        ground (
          arith,
          long,
          u.1,
          slice_total (u.0) (drop 4 bytes),
          length-drop 4 bytes,
          length-take (u.0) (drop 4 bytes),
          length-drop (u.0) (drop 4 bytes),
          read_body-Fits (take (u.0) (drop 4 bytes)) (drop (u.0) (drop 4 bytes)),
        )
  ]
