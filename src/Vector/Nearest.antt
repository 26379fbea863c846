-- ===== src/Vector/Nearest.antt =====
-- src/vector/index/linear.go: a search gives the nearest of the vectors that it may give.

use mathlib.Core.List.Memᴰ
use mathlib.Core.List.{Memᴰ}
use nexus_mind.Prelude.{ℕ, ◌≡◌, ◌≤◌, ◌⊎◌, Bool, true, false, not, ◌&&◌, Option, List, length}
use nexus_mind.Prelude.Int.{ℤ}
use nexus_mind.Prelude.Slice.{IsSorted, BeforeNone}
use nexus_mind.Prelude.Dict.{Dict}
use nexus_mind.Vector.Numbers.{Float32, Float64}
use nexus_mind.Vector.Model.{Vector}
use nexus_mind.Vector.Metadata.{MetadataFilter, match_vector}
use nexus_mind.Vector.Distance.{DistanceMetric, cosine, dot, euclidean, manhattan, unknown}
use nexus_mind.Vector.LinearIndex.{
  SearchParams, SearchResult, LinearIndex, result_limit, query_of, result_for, below_threshold,
}

-- What Go's documentation says of `<`: NaN aside, it orders the numbers.
pub record IsOrder (F : Type 0) ⦃fl : Float32 F⦄ : Type 0 where
  pub asymmetric : (a b : F) → fl.lt32 a b ≡ true → fl.lt32 b a ≡ false
  pub connected :
      (a b c : F)
      → fl.eq32 a a ≡ true
      → fl.eq32 b b ≡ true
      → fl.eq32 c c ≡ true
      → fl.lt32 a b ≡ false
      → fl.lt32 b c ≡ false
      → fl.lt32 a c ≡ false

-- The distance is not NaN.
abbrev pub IsNumber : {F : Type 0} ⦃fl : Float32 F⦄ → SearchResult F → Type 0
IsNumber ⦃fl⦄ r = fl.eq32 r.distance r.distance ≡ true

module _ {F : Type 0} ⦃fl : Float32 F⦄ where
  -- The better of two results: of similarities, which the cosine and the product are, the greater,
  -- and of distances the smaller. An unknown metric is taken for a similarity.
  abbrev pub is_nearer : DistanceMetric → SearchResult F → SearchResult F → Bool
  is_nearer cosine a b = fl.lt32 b.distance a.distance
  is_nearer dot a b = fl.lt32 b.distance a.distance
  is_nearer unknown a b = fl.lt32 b.distance a.distance
  is_nearer euclidean a b = fl.lt32 a.distance b.distance
  is_nearer manhattan a b = fl.lt32 a.distance b.distance

module _ {F D : Type 0} ⦃fl : Float32 F⦄ ⦃dl : Float64 D⦄ (idx : LinearIndex F D) (query : List F)
    (filter : Option (MetadataFilter D)) (params : Option (SearchParams F)) where
  -- `r` is the result for a vector of the map that is not deleted, matches the filter, and has a score
  -- that the threshold lets pass.
  pub record Candidate (vectors : Dict (List ℕ) (Vector F D)) (r : SearchResult F) : Type 0 where
    pub key : List ℕ
    pub vector : Vector F D
    pub member : Memᴰ (key, vector) vectors
    pub live : vector.deleted ≡ false
    pub matches : match_vector filter vector ≡ true
    pub passes : below_threshold params r.score ≡ false
    pub result : r ≡ result_for idx query vector

  gives : Vector F D → Bool
  gives v =
      not v.deleted
      && match_vector filter v
      && not (below_threshold params (result_for idx query v).score)

module _ {F D : Type 0} ⦃fl : Float32 F⦄ ⦃dl : Float64 D⦄ where
  -- The results: at most as many as asked for, the nearest first, all of them candidates; and a candidate
  -- that is left out is better than none of them, and there are as many as asked for.
  pub record AreNearest (idx : LinearIndex F D) (query : List F) (k : ℤ)
      (filter : Option (MetadataFilter D)) (params : Option (SearchParams F))
      (rs : List (SearchResult F)) : Type 0 where
    pub few : length rs ≤ result_limit k idx
    pub sorted : IsSorted (is_nearer idx.metric) rs
    pub sound :
        (r : SearchResult F)
        → Memᴰ r rs
        → Candidate idx (query_of idx query) filter params idx.vectors r
    pub complete :
        (r : SearchResult F)
        → Candidate idx (query_of idx query) filter params idx.vectors r
        → Memᴰ r rs ⊎ ((length rs ≡ result_limit k idx) × BeforeNone (is_nearer idx.metric) r rs)
