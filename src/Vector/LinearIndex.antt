-- ===== src/Vector/LinearIndex.antt =====
-- src/vector/index/linear.go: the index that looks at every vector. Each operation is one critical
-- section of the lock, and the workers' results arrive in the order of the map.
use Prim.Native.Nat.{min}
use nexus_mind.Prelude.{
  ℕ, zero, ◌+◌, Bool, true, false, not, ◌&&◌, Option, none, some, List, [], ◌∷◌, length, take,
  if◌then◌else◌, ◌==◌,
}
use nexus_mind.Prelude.Int.{ℤ, pos, negsuc}
use nexus_mind.Prelude.Slice.{sort_slice}
use nexus_mind.Prelude.Dict.{Dict, bytes_eq, lookup, insert}
use nexus_mind.Vector.Numbers.{Float32, Float64}
use nexus_mind.Vector.Model.{Vector, copy, normalize, normalize_values, mark_deleted}
use nexus_mind.Vector.Metadata.{MetadataFilter, match_vector}
use nexus_mind.Vector.Distance.{
  DistanceMetric, cosine, dot, euclidean, manhattan, unknown, get_distance_func, is_higher_better,
  normalize_score,
}

pub data SearchStrategy : Type 0 where
  default exact_search fast_search precise_search batch_search : SearchStrategy

pub record SearchParams (F : Type 0) : Type 0 where
  pub hnsw_ef : ℕ
  pub exact : Bool
  pub indexed_only : Bool
  pub use_quantization : Bool
  pub search_strategy : SearchStrategy
  pub score_threshold : F

-- `vector` is a pointer into the index, named by the key at which the index holds the vector.
pub record SearchResult (F : Type 0) : Type 0 where
  pub id : List ℕ
  pub distance : F
  pub vector : Option (List ℕ)
  pub score : F

pub data Error : Type 0 where
  wrong_dimension not_found wrong_type no_indexes no_query many_queries unsupported : Error

pub data Result (A : Type 0) : Type 0 where
  ok : A → Result A
  err : Error → Result A

pub record LinearIndex (F D : Type 0) : Type 0 where
  pub dimension : ℕ
  pub distance_func : List F → List F → F
  pub metric : DistanceMetric
  pub vectors : Dict (List ℕ) (Vector F D)
  pub keep_normalized : Bool

unfoldable pub is_cosine : DistanceMetric → Bool
is_cosine cosine = true
is_cosine dot = false
is_cosine euclidean = false
is_cosine manhattan = false
is_cosine unknown = false

module _ {F D : Type 0} ⦃fl : Float32 F⦄ where
  -- No index for a metric that has no distance function.
  unfoldable pub new_linear_index : ℕ → DistanceMetric → Option (LinearIndex F D)
  unfolding get_distance_func is_cosine
  new_linear_index dimension metric = elim (get_distance_func metric) [
    | none ↦ none
    | some distance ↦ some (record {
      dimension = dimension;
      distance_func = distance;
      metric = metric;
      vectors = [];
      keep_normalized = is_cosine metric;
    })
  ]

  -- The index's own copy.
  unfoldable pub stored : LinearIndex F D → Vector F D → Vector F D
  unfolding copy normalize
  stored idx v = if idx.keep_normalized then normalize (copy v) else copy v

  unfoldable pub insert_vector : Vector F D → LinearIndex F D → Result (LinearIndex F D)
  unfolding stored
  insert_vector v idx =
      if length v.values == idx.dimension
      then ok (record idx { vectors = insert v.id (stored idx v) idx.vectors })
      else err wrong_dimension

  -- The vectors before the one that fails stay in the index: what holds then is the second part.
  unfoldable pub batch_insert : List (Vector F D) → LinearIndex F D → Option Error × LinearIndex F D
  unfolding insert_vector
  batch_insert [] idx = (none, idx)
  batch_insert (v ∷ vs) idx = elim (insert_vector v idx) [
    | ok idx' ↦ batch_insert vs idx'
    | err e ↦ (some e, idx)
  ]

  -- `k` of at most 0 stands for 10; then no more than there are vectors.
  unfoldable pub result_limit : ℤ → LinearIndex F D → ℕ
  result_limit (pos zero) idx = min 10 (length idx.vectors)
  result_limit (pos k) idx = min k (length idx.vectors)
  result_limit (negsuc k) idx = min 10 (length idx.vectors)

  unfoldable pub query_of : LinearIndex F D → List F → List F
  unfolding normalize_values
  query_of idx query = if idx.keep_normalized then normalize_values query else query

  unfoldable pub result_for : LinearIndex F D → List F → Vector F D → SearchResult F
  unfolding normalize_score
  result_for idx query v =
      let distance = idx.distance_func query v.values in
      record {
        id = v.id;
        distance = distance;
        vector = some v.id;
        score = normalize_score distance idx.metric;
      }

module _ {F : Type 0} ⦃fl : Float32 F⦄ where
  -- No threshold, or none that is positive, lets every score pass.
  unfoldable pub below_threshold : Option (SearchParams F) → F → Bool
  below_threshold none score = false
  below_threshold (some p) score =
      fl.lt32 fl.zero32 p.score_threshold && fl.lt32 score p.score_threshold

  -- The `less` that the results are sorted by.
  unfoldable pub is_before : DistanceMetric → SearchResult F → SearchResult F → Bool
  unfolding is_higher_better
  is_before metric a b =
      if is_higher_better metric
      then fl.lt32 b.distance a.distance
      else fl.lt32 a.distance b.distance

module _ {F D : Type 0} ⦃fl : Float32 F⦄ ⦃dl : Float64 D⦄ where
  -- The workers: each live vector that the filter lets pass, with its distance and its score.
  unfoldable pub collect :
      LinearIndex F D
      → List F
      → Option (MetadataFilter D)
      → Option (SearchParams F)
      → Dict (List ℕ) (Vector F D)
      → List (SearchResult F)
  unfolding match_vector result_for below_threshold
  collect idx query filter params [] = []
  collect idx query filter params ((key, v) ∷ rest) =
      let others = collect idx query filter params rest in
      let result = result_for idx query v in
      if not v.deleted && match_vector filter v && not (below_threshold params result.score)
      then result ∷ others
      else others

  unfoldable pub search :
      List F
      → ℤ
      → Option (MetadataFilter D)
      → Option (SearchParams F)
      → LinearIndex F D
      → Result (List (SearchResult F))
  unfolding query_of result_limit collect is_before
  search query k filter params idx =
      if length query == idx.dimension
      then ok (
          take (result_limit k idx) (
            sort_slice (is_before idx.metric)
              (collect idx (query_of idx query) filter params idx.vectors)))
      else err wrong_dimension

module _ {F D : Type 0} where
  -- A vector that is deleted stays in the map, marked.
  unfoldable pub delete : List ℕ → ℤ → LinearIndex F D → Result (LinearIndex F D)
  unfolding mark_deleted
  delete id now idx = elim (lookup id idx.vectors) [
    | none ↦ err not_found
    | some v ↦ ok (record idx { vectors = insert id (mark_deleted now v) idx.vectors })
  ]

  unfoldable pub count_live : Dict (List ℕ) (Vector F D) → ℕ
  count_live [] = 0
  count_live ((key, v) ∷ rest) = (if v.deleted then 0 else 1) + count_live rest

  unfoldable pub size : LinearIndex F D → ℕ
  unfolding count_live
  size idx = count_live idx.vectors
