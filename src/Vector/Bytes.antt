-- ===== src/Vector/Bytes.antt =====
-- src/models/vector.go: a vector to bytes and back.
use nexus_mind.Prelude.{
  ℕ, zero, suc, ◌+◌, ◌-◌, ◌*◌, ◌/◌, ◌%◌, ◌^◌, Bool, Option, some, List, [], ◌∷◌, ◌++◌, length, take,
  drop, ltb, ◌==◌, if◌then◌else◌,
}
use nexus_mind.Prelude.Int.{ℤ, pos, negsuc}
use nexus_mind.Vector.Numbers.{Float32}
use nexus_mind.Vector.Values.{Fields, no_fields}
use nexus_mind.Vector.Model.{Vector}

pub data Error : Type 0 where
  invalid_format : Error

-- A value and a nil error, an error, or a slice out of range.
pub data Result (A : Type 0) : Type 0 where
  ok : A → Result A
  err : Error → Result A
  panics : Result A

infixl 5 ◌>>=◌
abbrev pub ◌>>=◌ : {A B : Type 0} → Result A → (A → Result B) → Result B
ok a >>= f = f a
err e >>= f = err e
panics >>= f = panics

-- `binary.LittleEndian.PutUint32` and `PutUint64`: the low bytes first.
unfoldable pub put_uint : ℕ → ℕ → List ℕ
put_uint zero n = []
put_uint (suc width) n = n % 256 ∷ put_uint width (n / 256)

-- `binary.LittleEndian.Uint32` and `Uint64` of a slice; a short one panics.
unfoldable pub uint : ℕ → List ℕ → Result ℕ
uint zero bytes = ok 0
uint (suc width) [] = panics
uint (suc width) (b ∷ bytes) = uint width bytes >>= λ n. ok (b + 256 * n)

-- `uint64(t)` of an int64, and back.
unfoldable pub to_uint64 : ℤ → ℕ
to_uint64 (pos n) = n % 2 ^ 64
to_uint64 (negsuc n) = 2 ^ 64 - 1 - n % 2 ^ 64

unfoldable pub to_int64 : ℕ → ℤ
to_int64 n = if ltb n (2 ^ 63) then pos n else negsuc (2 ^ 64 - 1 - n)

-- `rest[:n]`; past the end it panics.
unfoldable pub slice : ℕ → List ℕ → Result (List ℕ)
slice n rest = if ltb (length rest) n then panics else ok (take n rest)

module _ {D : Type 0} where
  -- The placeholders for the metadata.
  unfoldable pub serialize_metadata : Option (Fields D) → List ℕ
  serialize_metadata metadata = []

  unfoldable pub deserialize_metadata : List ℕ → Result (Fields D)
  deserialize_metadata bytes = ok no_fields

module _ {F : Type 0} ⦃fl : Float32 F⦄ where
  unfoldable pub put_values : List F → List ℕ
  unfolding put_uint
  put_values [] = []
  put_values (x ∷ xs) = put_uint 4 (fl.bits x) ++ put_values xs

  -- The loop over the values reads `n` of them and gives what is left as well.
  unfoldable pub read_values : ℕ → List ℕ → Result (List F × List ℕ)
  unfolding uint
  read_values zero rest = ok ([], rest)
  read_values (suc n) rest =
      uint 4 rest >>= λ b. read_values n (drop 4 rest) >>= λ r. ok (fl.from_bits b ∷ r.0, r.1)

  module _ {D : Type 0} where
    unfoldable pub serialize : Vector F D → List ℕ
    unfolding put_uint put_values serialize_metadata to_uint64
    serialize v =
        put_uint 4 (length v.id % 2 ^ 32)
        ++ (v.id
            ++ (put_uint 4 (length v.values % 2 ^ 32)
                ++ (put_values v.values
                    ++ (put_uint 4 (length (serialize_metadata v.metadata) % 2 ^ 32)
                        ++ (serialize_metadata v.metadata
                            ++ (put_uint 8 (to_uint64 v.timestamp)
                                ++ ((if v.deleted then 1 else 0) ∷ [])))))))

-- In each step `rest` is `data[offset:]`, so that `offset + n > len(data)` is `len(rest) < n`.
unfoldable pub read_deleted : List ℕ → Result Bool
read_deleted [] = err invalid_format
read_deleted (b ∷ rest) = ok (b == 1)

module _ {F D : Type 0} ⦃fl : Float32 F⦄ where
  unfoldable pub read_tail : List ℕ → List F → Fields D → List ℕ → Result (Vector F D)
  unfolding uint to_int64 read_deleted
  read_tail id values metadata rest =
      if ltb (length rest) 8
      then err invalid_format
      else (uint 8 rest >>= λ t. read_deleted (drop 8 rest) >>= λ deleted. ok (record {
        id = id;
        values = values;
        metadata = some metadata;
        timestamp = to_int64 t;
        deleted = deleted;
      }))

  unfoldable pub read_metadata : List ℕ → List F → List ℕ → Result (Vector F D)
  unfolding uint slice deserialize_metadata read_tail
  read_metadata id values rest =
      if ltb (length rest) 4
      then err invalid_format
      else (uint 4 rest >>= λ n.
          if ltb (length (drop 4 rest)) n
          then err invalid_format
          else (slice n (drop 4 rest) >>= λ bytes. deserialize_metadata bytes >>= λ metadata.
              read_tail id values metadata (drop n (drop 4 rest))))

  unfoldable pub read_body : List ℕ → List ℕ → Result (Vector F D)
  unfolding uint read_values read_metadata
  read_body id rest =
      if ltb (length rest) 4
      then err invalid_format
      else (uint 4 rest >>= λ n.
          if ltb (length (drop 4 rest)) (n * 4)
          then err invalid_format
          else (read_values n (drop 4 rest) >>= λ r. read_metadata id (r.0) (r.1)))

  unfoldable pub deserialize_vector : List ℕ → Result (Vector F D)
  unfolding uint slice read_body
  deserialize_vector bytes =
      if ltb (length bytes) 4
      then err invalid_format
      else (uint 4 bytes >>= λ n.
          if ltb (length (drop 4 bytes)) n
          then err invalid_format
          else (slice n (drop 4 bytes) >>= λ id. read_body id (drop n (drop 4 bytes))))
