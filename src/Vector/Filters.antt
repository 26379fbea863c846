-- ===== src/Vector/Filters.antt =====
-- src/models/metadata.go: the operators of a filter against each other.
use Prim.Native.String.{String}
use nexus_mind.Prelude.{◌≡◌, ◌&&◌, Option-cases, inl, inr, some, [], ◌∷◌, arith}
use nexus_mind.Prelude.Dict.{string_eq}
use nexus_mind.Vector.Numbers.{Float64}
use nexus_mind.Vector.Values.{Value, Fields, get_field}
use nexus_mind.Vector.Model.{Vector}
use nexus_mind.Vector.Metadata.{
  FilterCondition, new_range_condition, new_and_filter, compare_by, in_range, match_value,
  match_condition, match_all, match_conditions, match_vector, get_nested_value, split_dots,
}

module _ {D : Type 0} ⦃dl : Float64 D⦄ where
  abbrev pub at_least_value : String → Value D → FilterCondition D
  at_least_value name lo = record { field = name; operator = "gte"; value = lo }

  abbrev pub at_most_value : String → Value D → FilterCondition D
  at_most_value name hi = record { field = name; operator = "lte"; value = hi }

  compare_by-range :
      (name : String) (v lo hi : Value D)
      → compare_by "range" v ((new_range_condition name lo hi).value)
        ≡ (compare_by "gte" v lo && compare_by "lte" v hi)
  unfolding compare_by new_range_condition in_range get_field
  compare_by-range name v lo hi = ground arith

  match_value-range :
      (name : String) (v lo hi : Value D)
      → match_value v (new_range_condition name lo hi)
        ≡ (match_value v (at_least_value name lo) && match_value v (at_most_value name hi))
  unfolding match_value new_range_condition
  match_value-range name v lo hi = ground (arith, compare_by-range name v lo hi)

  match_condition-range :
      (name : String) (m : Fields D) (lo hi : Value D)
      → match_condition m (new_range_condition name lo hi)
        ≡ (match_condition m (at_least_value name lo) && match_condition m (at_most_value name hi))
  unfolding match_condition
  match_condition-range name m lo hi =
      unfold new_range_condition in
      match_value-range name (get_nested_value m (split_dots name)) lo hi

  -- A range condition matches exactly the vectors that match both a lower bound and an upper bound
  -- on the same field with the same values.
  pub match_vector-range :
      {F : Type 0} (name : String) (v : Vector F D) (lo hi : Value D)
      → match_vector (some (new_and_filter (new_range_condition name lo hi ∷ []))) v
        ≡ match_vector
            (some (new_and_filter (at_least_value name lo ∷ at_most_value name hi ∷ [])))
            v
  unfolding match_vector match_conditions match_all new_and_filter
  match_vector-range name v lo hi = elim (Option-cases v.metadata) [
    | inl e ↦ ground (arith, e)
    | inr (m, e) ↦ ground (arith, e, match_condition-range name m lo hi)
  ]
