-- ===== src/Vector/Model.antt =====
-- src/models/vector.go: a stored vector and the operations on it. The identifier, a Go string, is
-- its list of bytes; the time is an argument.
use nexus_mind.Prelude.{
  ℕ, ◌+◌, ◌*◌, Bool, true, false, Option, none, some, List, [], ◌∷◌, map, length, if◌then◌else◌,
}
use nexus_mind.Prelude.Int.{ℤ}
use nexus_mind.Vector.Numbers.{Float32}
use Prim.Native.String.{len}
use nexus_mind.Vector.Values.{
  Value, nil, str, float, int, bool, array, object, Fields, no_fields, and_field,
}

-- No metadata is the nil map.
pub record Vector (F D : Type 0) : Type 0 where
  pub id : List ℕ
  pub values : List F
  pub metadata : Option (Fields D)
  pub timestamp : ℤ
  pub deleted : Bool

pub record SparseVector (F D : Type 0) : Type 0 where
  pub id : List ℕ
  pub indices : List ℤ
  pub values : List F
  pub metadata : Option (Fields D)
  pub timestamp : ℤ
  pub deleted : Bool

unfoldable pub fields_or_empty : {D : Type 0} → Option (Fields D) → Fields D
fields_or_empty none = no_fields
fields_or_empty (some m) = m

-- The bytes that are reckoned for a value.
unfoldable pub value_size : {D : Type 0} → Value D → ℕ
value_size (str s) = len s
value_size (float x) = 8
value_size (int n) = 8
value_size (bool b) = 1
value_size nil = 8
value_size (array items) = 8
value_size (object m) = 8

unfoldable pub fields_size : {D : Type 0} → Fields D → ℕ
unfolding value_size
fields_size no_fields = 0
fields_size (and_field k v rest) = len k + value_size v + fields_size rest

module _ {F D : Type 0} where
  unfoldable pub size : Vector F D → ℕ
  unfolding fields_size fields_or_empty
  size v = 16 + 24 + 8 + 1 + length v.values * 4 + fields_size (fields_or_empty v.metadata)

  unfoldable pub new_vector : List ℕ → List F → Option (Fields D) → ℤ → Vector F D
  new_vector id values metadata now = record {
    id = id;
    values = values;
    metadata = metadata;
    timestamp = now;
    deleted = false;
  }

  unfoldable pub new_sparse_vector :
      List ℕ → List ℤ → List F → Option (Fields D) → ℤ → SparseVector F D
  new_sparse_vector id indices values metadata now = record {
    id = id;
    indices = indices;
    values = values;
    metadata = metadata;
    timestamp = now;
    deleted = false;
  }

  -- The copy's map is never nil.
  unfoldable pub copy : Vector F D → Vector F D
  unfolding fields_or_empty
  copy v = record v { metadata = some (fields_or_empty v.metadata) }

  unfoldable pub dimension : Vector F D → ℕ
  dimension v = length v.values

  unfoldable pub mark_deleted : ℤ → Vector F D → Vector F D
  mark_deleted now v = record v { deleted = true; timestamp = now }

module _ {F : Type 0} ⦃fl : Float32 F⦄ where
  unfoldable pub sum_squares : F → List F → F
  sum_squares sum [] = sum
  sum_squares sum (x ∷ xs) = sum_squares (fl.add sum (fl.mul x x)) xs

  unfoldable pub normalize_values : List F → List F
  unfolding sum_squares
  normalize_values xs =
      let sum = sum_squares fl.zero32 xs in
      if fl.eq32 sum fl.zero32 then xs else map (λ x. fl.div x (fl.sqrt sum)) xs

  unfoldable pub normalize : {D : Type 0} → Vector F D → Vector F D
  unfolding normalize_values
  normalize v = record v { values = normalize_values v.values }
