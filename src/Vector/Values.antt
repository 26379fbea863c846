-- ===== src/Vector/Values.antt =====
-- The values of an `interface{}` in src/models/: what JSON gives, and Go's int.
use Prim.Native.String.{String}
use nexus_mind.Prelude.{ℕ, Bool, true, false, ◌&&◌, Option, none, some, if◌then◌else◌, suc, ◌==◌}
use nexus_mind.Prelude.Dict.{string_eq}
use nexus_mind.Prelude.Int.{ℤ, ◌==ℤ◌}
use text.Mathlib.Text.{◌==◌ as str_eq}
use nexus_mind.Vector.Numbers.{Float64}

-- An array is `[]interface{}`, an object `map[string]interface{}`, which is not nil.
mutual
  pub data Value (D : Type 0) : Type 0 where
    nil : Value D
    str : String → Value D
    float : D → Value D
    int : ℤ → Value D
    bool : Bool → Value D
    array : Values D → Value D
    object : Fields D → Value D

  pub data Values (D : Type 0) : Type 0 where
    no_values : Values D
    and_value : Value D → Values D → Values D

  pub data Fields (D : Type 0) : Type 0 where
    no_fields : Fields D
    and_field : String → Value D → Fields D → Fields D

module _ {D : Type 0} where
  -- `m[name]`, with its second result.
  unfoldable pub get_field : String → Fields D → Option (Value D)
  get_field name no_fields = none
  get_field name (and_field k v rest) = if str_eq k name then some v else get_field name rest

  abbrev pub field_count : Fields D → ℕ
  field_count no_fields = 0
  field_count (and_field k v rest) = suc (field_count rest)

module _ {D : Type 0} ⦃fl : Float64 D⦄ where
  -- `reflect.DeepEqual`; two maps are equal with the same number of keys and equal values.
  unfoldable mutual
    unfolding get_field

    pub deep_equal : Value D → Value D → Bool
    deep_equal nil nil = true
    deep_equal (str a) (str b) = str_eq a b
    deep_equal (float a) (float b) = fl.eq64 a b
    deep_equal (int a) (int b) = a ==ℤ b
    deep_equal (bool true) (bool b) = b
    deep_equal (bool false) (bool true) = false
    deep_equal (bool false) (bool false) = true
    deep_equal (array a) (array b) = values_equal a b
    deep_equal (object a) (object b) = field_count a == field_count b && fields_equal a b
    deep_equal _ _ = false

    pub values_equal : Values D → Values D → Bool
    values_equal no_values no_values = true
    values_equal (and_value a s) (and_value b t) = deep_equal a b && values_equal s t
    values_equal _ _ = false

    pub fields_equal : Fields D → Fields D → Bool
    fields_equal no_fields b = true
    fields_equal (and_field k v rest) b =
        elim (get_field k b) [ none ↦ false | some w ↦ deep_equal v w ] && fields_equal rest b
