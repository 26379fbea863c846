-- ===== src/Vector/Distance.antt =====
-- src/vector/distance.go, over the arithmetic of float32 as a
-- parameter; the metrics are those of src/models/vector_collection.go.
use Prim.Native.String.{String}
use nexus_mind.Prelude.{
  Bool, true, false, not, ◌||◌, Option, none, some, List, [], ◌∷◌, map, length, if◌then◌else◌, ◌==◌,
}
use nexus_mind.Vector.Numbers.{Float32}
use nexus_mind.Vector.Model.{sum_squares}

-- `unknown` is any other number.
pub data DistanceMetric : Type 0 where
  cosine dot euclidean manhattan unknown : DistanceMetric

unfoldable pub metric_name : DistanceMetric → String
metric_name cosine = "Cosine"
metric_name dot = "DotProduct"
metric_name euclidean = "Euclidean"
metric_name manhattan = "Manhattan"
metric_name unknown = "Unknown"

unfoldable pub is_higher_better : DistanceMetric → Bool
is_higher_better cosine = true
is_higher_better dot = true
is_higher_better euclidean = false
is_higher_better manhattan = false
is_higher_better unknown = true

module _ {F : Type 0} ⦃fl : Float32 F⦄ where
  -- The loops, from a sum so far.
  unfoldable pub add_products : F → List F → List F → F
  add_products sum (a ∷ s) (b ∷ t) = add_products (fl.add sum (fl.mul a b)) s t
  add_products sum [] t = sum
  add_products sum (a ∷ s) [] = sum

  unfoldable pub add_squares : F → List F → List F → F
  add_squares sum (a ∷ s) (b ∷ t) =
      let diff = fl.sub a b in add_squares (fl.add sum (fl.mul diff diff)) s t
  add_squares sum [] t = sum
  add_squares sum (a ∷ s) [] = sum

  unfoldable pub add_differences : F → List F → List F → F
  add_differences sum (a ∷ s) (b ∷ t) = add_differences (fl.add sum (fl.abs (fl.sub a b))) s t
  add_differences sum [] t = sum
  add_differences sum (a ∷ s) [] = sum

  unfoldable pub minus_one32 : F
  minus_one32 = fl.sub fl.zero32 fl.one32

  unfoldable pub cosine_similarity : List F → List F → F
  unfolding add_products sum_squares minus_one32
  cosine_similarity a b =
      let norm_a = sum_squares fl.zero32 a in
      let norm_b = sum_squares fl.zero32 b in
      if not (length a == length b)
      then minus_one32
      else if fl.eq32 norm_a fl.zero32 || fl.eq32 norm_b fl.zero32
      then fl.zero32
      else fl.div (add_products fl.zero32 a b) (fl.mul (fl.sqrt norm_a) (fl.sqrt norm_b))

  unfoldable pub dot_product : List F → List F → F
  unfolding add_products
  dot_product a b = if length a == length b then add_products fl.zero32 a b else fl.zero32

  unfoldable pub euclidean_distance : List F → List F → F
  unfolding add_squares
  euclidean_distance a b =
      if length a == length b then fl.sqrt (add_squares fl.zero32 a b) else fl.infinity

  unfoldable pub manhattan_distance : List F → List F → F
  unfolding add_differences
  manhattan_distance a b =
      if length a == length b then add_differences fl.zero32 a b else fl.infinity

  unfoldable pub get_distance_func : DistanceMetric → Option (List F → List F → F)
  unfolding cosine_similarity dot_product euclidean_distance manhattan_distance
  get_distance_func cosine = some cosine_similarity
  get_distance_func dot = some dot_product
  get_distance_func euclidean = some euclidean_distance
  get_distance_func manhattan = some manhattan_distance
  get_distance_func unknown = none

  unfoldable pub precompute_norms : List (List F) → List F
  unfolding sum_squares
  precompute_norms vectors = map (λ v. fl.sqrt (sum_squares fl.zero32 v)) vectors

  unfoldable pub cosine_similarity_with_norms : List F → List F → F → F → F
  unfolding add_products minus_one32
  cosine_similarity_with_norms a b norm_a norm_b =
      if not (length a == length b)
      then minus_one32
      else if fl.eq32 norm_a fl.zero32 || fl.eq32 norm_b fl.zero32
      then fl.zero32
      else fl.div (add_products fl.zero32 a b) (fl.mul norm_a norm_b)

  unfoldable pub cosine_similarity_normalized : List F → List F → F
  unfolding add_products minus_one32
  cosine_similarity_normalized a b =
      if length a == length b then add_products fl.zero32 a b else minus_one32

  unfoldable pub batch_distance : List F → List (List F) → DistanceMetric → Option (List F)
  unfolding get_distance_func
  batch_distance query vectors metric = elim (get_distance_func metric) [
    | none ↦ none
    | some distance ↦ some (map (distance query) vectors)
  ]

  unfoldable pub two32 : F
  two32 = fl.add fl.one32 fl.one32

  unfoldable pub normalize_score : F → DistanceMetric → F
  unfolding two32
  normalize_score raw cosine = fl.div (fl.add raw fl.one32) two32
  normalize_score raw dot =
      if fl.le32 raw fl.zero32 then fl.zero32 else if fl.le32 fl.one32 raw then fl.one32 else raw
  normalize_score raw euclidean = fl.exp_neg raw
  normalize_score raw manhattan = fl.exp_neg_half raw
  normalize_score raw unknown = fl.div fl.one32 two32
