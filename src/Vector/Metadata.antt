-- ===== src/Vector/Metadata.antt =====
-- src/models/metadata.go: the schema that metadata is checked against, and the filter of a search.
use Prim.Native.Nat.{Ordering, compare}
use Prim.Native.Char.{code}
use Prim.Native.String.{String, compare as compare_str}
use text.Mathlib.Text.{◌==◌ as str_eq, find?}
use nexus_mind.Prelude.{
  Bool, true, false, not, ◌&&◌, ◌||◌, Option, none, some, List, [], ◌∷◌, if◌then◌else◌, ◌==◌,
}
use nexus_mind.Prelude.Dict.{Dict, string_eq, insert}
use nexus_mind.Prelude.Int.{ℤ, pos, negsuc}
use nexus_mind.Vector.Numbers.{Float64}
use nexus_mind.Vector.Values.{
  Value, nil, str, float, int, bool, array, object, Values, no_values, and_value, Fields, no_fields,
  and_field, get_field, deep_equal,
}
use nexus_mind.Vector.Model.{Vector, fields_or_empty}

pub data FieldType : Type 0 where
  string_field number_field bool_field array_field geo_field : FieldType

pub record MetadataSchema : Type 0 where
  pub fields : Dict String FieldType

unfoldable pub new_metadata_schema : MetadataSchema
new_metadata_schema = record { fields = [] }

unfoldable pub add_field : String → FieldType → MetadataSchema → MetadataSchema
add_field name field_type s = record s { fields = insert name field_type s.fields }

abbrev pub type_eq : FieldType → FieldType → Bool
type_eq string_field string_field = true
type_eq number_field number_field = true
type_eq bool_field bool_field = true
type_eq array_field array_field = true
type_eq geo_field geo_field = true
type_eq _ _ = false

module _ {D : Type 0} where
  unfoldable pub is_geo : Fields D → Bool
  unfolding get_field
  is_geo m = elim (get_field "lat" m) [
    | none ↦ false
    | some lat ↦ elim (get_field "lon" m) [ none ↦ false | some lon ↦ true ]
  ]

  unfoldable pub detect_field_type : Value D → FieldType
  unfolding is_geo
  detect_field_type nil = string_field
  detect_field_type (str s) = string_field
  detect_field_type (float x) = number_field
  detect_field_type (int n) = number_field
  detect_field_type (bool b) = bool_field
  detect_field_type (array vs) = array_field
  detect_field_type (object m) = if is_geo m then geo_field else string_field

  -- The first field of another type than the schema's: its name, the type expected and the actual one.
  unfoldable pub validate_fields :
      Dict String FieldType → Fields D → Option (String × FieldType × FieldType)
  unfolding get_field detect_field_type
  validate_fields [] m = none
  validate_fields ((name, expected) ∷ rest) m =
      let later = validate_fields rest m in
      elim (get_field name m) [
        | none ↦ later
        | some value ↦
            if type_eq (detect_field_type value) expected
            then later
            else some (name, expected, detect_field_type value)
      ]

  -- A nil map reads like an empty one.
  unfoldable pub validate_metadata :
      MetadataSchema → Option (Fields D) → Option (String × FieldType × FieldType)
  unfolding validate_fields fields_or_empty
  validate_metadata s metadata = validate_fields s.fields (fields_or_empty metadata)

pub data FilterOperator : Type 0 where
  and_op or_op : FilterOperator

pub record FilterCondition (D : Type 0) : Type 0 where
  pub field : String
  pub operator : String
  pub value : Value D

pub record MetadataFilter (D : Type 0) : Type 0 where
  pub conditions : List (FilterCondition D)
  pub operator : FilterOperator

module _ {D : Type 0} where
  unfoldable pub new_equals_condition : String → Value D → FilterCondition D
  new_equals_condition name v = record { field = name; operator = "eq"; value = v }

  unfoldable pub new_range_condition : String → Value D → Value D → FilterCondition D
  new_range_condition name lo hi = record {
    field = name;
    operator = "range";
    value = object (and_field "gte" lo (and_field "lte" hi no_fields));
  }

  unfoldable pub new_and_filter : List (FilterCondition D) → MetadataFilter D
  new_and_filter conditions = record { conditions = conditions; operator = and_op }

  unfoldable pub new_or_filter : List (FilterCondition D) → MetadataFilter D
  new_or_filter conditions = record { conditions = conditions; operator = or_op }

-- `strings.Split(s, ".")`.
unfoldable pub split_dots : String → List String
split_dots String.[] = "" ∷ []
split_dots (String.◌∷◌ c s) =
    let rest = split_dots s in
    if code c == 46
    then "" ∷ rest
    else (elim rest [ [] ↦ [] | part ∷ parts ↦ String.◌∷◌ c part ∷ parts ])

-- `strings.Contains`.
unfoldable pub contains : String → String → Bool
contains s t = elim (find? s t) [ none ↦ false | some i ↦ true ]

-- The order of Go's ints.
unfoldable pub compare_int : ℤ → ℤ → Ordering
compare_int (pos a) (pos b) = compare a b
compare_int (pos a) (negsuc b) = Ordering.gt
compare_int (negsuc a) (pos b) = Ordering.lt
compare_int (negsuc a) (negsuc b) = compare b a

-- The results of `compareValues` against 0.
abbrev pub is_lt : Ordering → Bool
is_lt Ordering.lt = true
is_lt Ordering.eq = false
is_lt Ordering.gt = false

abbrev pub is_gt : Ordering → Bool
is_gt Ordering.lt = false
is_gt Ordering.eq = false
is_gt Ordering.gt = true

module _ {D : Type 0} ⦃fl : Float64 D⦄ where
  unfoldable pub compare_float : D → D → Ordering
  compare_float a b =
      if fl.lt64 a b then Ordering.lt else if fl.lt64 b a then Ordering.gt else Ordering.eq

  -- Values of types that do not go together count as equal.
  unfoldable pub compare_values : Value D → Value D → Ordering
  unfolding compare_int compare_float
  compare_values nil nil = Ordering.eq
  compare_values nil _ = Ordering.lt
  compare_values _ nil = Ordering.gt
  compare_values (str a) (str b) = compare_str a b
  compare_values (float a) (float b) = compare_float a b
  compare_values (float a) (int b) = compare_float a (fl.of_int b)
  compare_values (int a) (int b) = compare_int a b
  compare_values (int a) (float b) = compare_float (fl.of_int a) b
  compare_values _ _ = Ordering.eq

  -- A missing entry of a map reads as nil.
  unfoldable pub get_nested_value : Fields D → List String → Value D
  unfolding get_field
  get_nested_value m [] = nil
  get_nested_value m (p ∷ []) = elim (get_field p m) [ none ↦ nil | some v ↦ v ]
  get_nested_value m (p ∷ q ∷ path) = elim (get_field p m) [
    | none ↦ nil
    | some v ↦ elim v [ object inner ↦ get_nested_value inner (q ∷ path) | _ ↦ nil ]
  ]

  unfoldable pub in_range : Value D → Value D → Bool
  unfolding get_field compare_values
  in_range value (object bounds) =
      not
        (elim (get_field "gte" bounds) [ none ↦ false | some lo ↦ is_lt (compare_values value lo) ])
      && not (elim (get_field "lte" bounds) [
        | none ↦ false
        | some hi ↦ is_gt (compare_values value hi)
      ])
  in_range value _ = false

  unfoldable pub has_item : Values D → Value D → Bool
  unfolding deep_equal
  has_item no_values v = false
  has_item (and_value item items) v = deep_equal item v || has_item items v

  unfoldable pub contains_value : Value D → Value D → Bool
  unfolding contains has_item
  contains_value (str s) (str t) = contains s t
  contains_value (array items) v = has_item items v
  contains_value _ _ = false

  unfoldable pub compare_by : String → Value D → Value D → Bool
  unfolding deep_equal compare_values in_range contains_value
  compare_by operator value v =
      if str_eq operator "eq"
      then deep_equal value v
      else if str_eq operator "neq"
      then not (deep_equal value v)
      else if str_eq operator "gt"
      then is_gt (compare_values value v)
      else if str_eq operator "gte"
      then not (is_lt (compare_values value v))
      else if str_eq operator "lt"
      then is_lt (compare_values value v)
      else if str_eq operator "lte"
      then not (is_gt (compare_values value v))
      else if str_eq operator "range"
      then in_range value v
      else if str_eq operator "contains"
      then contains_value value v
      else false

  -- A value that is not there, or is nil, matches nothing.
  unfoldable pub match_value : Value D → FilterCondition D → Bool
  unfolding compare_by
  match_value nil c = false
  match_value value c = compare_by c.operator value c.value

  unfoldable pub match_condition : Fields D → FilterCondition D → Bool
  unfolding split_dots get_nested_value match_value
  match_condition metadata c = match_value (get_nested_value metadata (split_dots c.field)) c

  unfoldable pub match_all : Fields D → List (FilterCondition D) → Bool
  unfolding match_condition
  match_all m [] = true
  match_all m (c ∷ cs) = match_condition m c && match_all m cs

  unfoldable pub match_any : Fields D → List (FilterCondition D) → Bool
  unfolding match_condition
  match_any m [] = false
  match_any m (c ∷ cs) = match_condition m c || match_any m cs

  unfoldable pub match_conditions : MetadataFilter D → Fields D → Bool
  unfolding match_all match_any
  match_conditions f m = elim f.operator [
    | and_op ↦ match_all m f.conditions
    | or_op ↦ match_any m f.conditions
  ]

  -- No filter is the nil pointer.
  unfoldable pub match_vector : {F : Type 0} → Option (MetadataFilter D) → Vector F D → Bool
  unfolding match_conditions
  match_vector none v = true
  match_vector (some f) v = elim f.conditions [
    | [] ↦ true
    | c ∷ cs ↦ elim v.metadata [ none ↦ false | some m ↦ match_conditions f m ]
  ]
