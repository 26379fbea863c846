-- ===== src/Vector/Processor.antt =====
-- src/vector/query/processor.go: what a query is checked for, and what is done with its results.
use Prim.Native.String.{String}
use text.Mathlib.Text.{◌==◌ as str_eq}
use nexus_mind.Prelude.{
  ℕ, ◌+◌, Bool, true, false, not, ◌&&◌, ◌||◌, Option, none, some, List, [], ◌∷◌, length, drop, map,
  if◌then◌else◌, ◌==◌, ltb,
}
use nexus_mind.Prelude.Int.{ℤ, pos, negsuc, leb_ℤ}
use nexus_mind.Prelude.Dict.{Dict, bytes_eq, lookup, insert}
use nexus_mind.Vector.Numbers.{Float32, Float64}
use nexus_mind.Vector.Values.{Value, nil, str, float, int, bool, array, object}
use nexus_mind.Vector.Model.{Vector}
use nexus_mind.Vector.Metadata.{MetadataFilter}
use nexus_mind.Vector.LinearIndex.{
  Error, wrong_dimension, no_query, many_queries, unsupported, Result, ok, err, SearchParams,
  SearchResult, default, exact_search, fast_search, precise_search, batch_search,
}
use nexus_mind.Vector.Collection.{VectorCollection, search_collection}

pub record RecommendParams : Type 0 where
  pub positive : List String
  pub negative : List String
  pub strategy : String

pub record ScrollParams : Type 0 where
  pub offset : String
  pub limit : ℤ

-- `WithPayload` is a value, or a `[]string`.
pub data Payload (D : Type 0) : Type 0 where
  value : Value D → Payload D
  strings : List String → Payload D

pub record QueryRequest (F D : Type 0) : Type 0 where
  pub vector : Option (List F)
  pub point_id : String
  pub recommend : Option RecommendParams
  pub scroll : Option ScrollParams
  pub sample : String
  pub filter : Option (MetadataFilter D)
  pub params : Option (SearchParams F)
  pub limit : ℤ
  pub offset : ℤ
  pub with_vectors : Bool
  pub with_payload : Payload D
  pub group_by : String
  pub group_size : ℤ
  pub group_limit : ℤ
  pub using : String

-- `n <= 0`.
abbrev pub not_positive : ℤ → Bool
not_positive n = leb_ℤ n (pos 0)

abbrev pub one_if : Bool → ℕ
one_if b = if b then 1 else 0

abbrev pub is_given : {A : Type 0} → Option A → Bool
is_given none = false
is_given (some a) = true

module _ {D : Type 0} where
  unfoldable pub is_with_payload : Payload D → Bool
  is_with_payload (value nil) = false
  is_with_payload (value (bool b)) = b
  is_with_payload (value (str s)) = true
  is_with_payload (value (object m)) = true
  is_with_payload (value (array items)) = false
  is_with_payload (value (int n)) = false
  is_with_payload (value (float x)) = false
  is_with_payload (strings names) = not (length names == 0)

module _ {F D : Type 0} where
  -- How many kinds of query are given.
  unfoldable pub query_types : QueryRequest F D → ℕ
  query_types r =
      one_if (is_given r.vector)
      + one_if (not (str_eq r.point_id ""))
      + one_if (is_given r.recommend)
      + one_if (is_given r.scroll)
      + one_if (not (str_eq r.sample ""))

  unfoldable pub default_limit : QueryRequest F D → QueryRequest F D
  default_limit r = if not_positive r.limit then record r { limit = pos 10 } else r

  unfoldable pub default_groups : QueryRequest F D → QueryRequest F D
  default_groups r =
      if not (str_eq r.group_by "") && (not_positive r.group_size || not_positive r.group_limit)
      then record r { group_size = pos 1; group_limit = r.limit }
      else r

  -- The request with the defaults filled in. It is not nil.
  unfoldable pub validate_request : ℕ → QueryRequest F D → Option Error × QueryRequest F D
  unfolding query_types default_limit default_groups
  validate_request dimension request =
      let r = default_limit request in
      if query_types r == 0
      then (some no_query, r)
      else if ltb 1 (query_types r)
      then (some many_queries, r)
      else (elim r.vector [
        | none ↦ (none, default_groups r)
        | some q ↦
            if length q == dimension then (none, default_groups r) else (some wrong_dimension, r)
      ])

module _ {F : Type 0} where
  unfoldable pub adjust_search_params : SearchParams F → SearchParams F
  adjust_search_params p =
      let given = λ (ef : ℕ). if p.hnsw_ef == 0 then ef else p.hnsw_ef in
      elim p.search_strategy [
        | exact_search ↦ record p { exact = true; hnsw_ef = 0 }
        | fast_search ↦ record p { exact = false; hnsw_ef = given 40 }
        | precise_search ↦ record p { exact = false; hnsw_ef = given 300 }
        | batch_search ↦ p
        | default ↦ record p { exact = false; hnsw_ef = given 100 }
      ]

module _ {F : Type 0} ⦃fl : Float32 F⦄ where
  -- The parameters that a query without any gets.
  unfoldable pub default_params : SearchParams F
  default_params = record {
    hnsw_ef = 100;
    exact = false;
    indexed_only = false;
    use_quantization = false;
    search_strategy = default;
    score_threshold = fl.zero32;
  }

  -- `results[request.Offset:]`, where the offset is an index past the first.
  unfoldable pub skip_offset : ℤ → List (SearchResult F) → List (SearchResult F)
  skip_offset (negsuc n) results = results
  skip_offset (pos n) results =
      if ltb 0 n && ltb n (length results) then drop n results else results

  unfoldable pub at_least : F → List (SearchResult F) → List (SearchResult F)
  at_least threshold [] = []
  at_least threshold (r ∷ rs) =
      let rest = at_least threshold rs in if fl.le32 threshold r.score then r ∷ rest else rest

  unfoldable pub filter_scores :
      Option (SearchParams F) → List (SearchResult F) → List (SearchResult F)
  unfolding at_least
  filter_scores none results = results
  filter_scores (some p) results =
      if fl.lt32 fl.zero32 p.score_threshold then at_least p.score_threshold results else results

  abbrev pub without_vector : SearchResult F → SearchResult F
  without_vector r = record r { vector = none }

  unfoldable pub drop_vectors : Bool → List (SearchResult F) → List (SearchResult F)
  drop_vectors with_vectors results = if with_vectors then results else map without_vector results

module _ {F D : Type 0} where
  -- `results[i].Vector.Metadata = nil` writes to the vector that the index holds.
  unfoldable pub erase_metadata :
      Option (List ℕ) → Dict (List ℕ) (Vector F D) → Dict (List ℕ) (Vector F D)
  erase_metadata none vectors = vectors
  erase_metadata (some key) vectors = elim (lookup key vectors) [
    | none ↦ vectors
    | some v ↦ insert key (record v { metadata = none }) vectors
  ]

  unfoldable pub erase_all :
      List (SearchResult F) → Dict (List ℕ) (Vector F D) → Dict (List ℕ) (Vector F D)
  unfolding erase_metadata
  erase_all [] vectors = vectors
  erase_all (r ∷ rs) vectors = erase_all rs (erase_metadata r.vector vectors)

  -- The pointers are into the first index, which answered the search.
  unfoldable pub in_first :
      (Dict (List ℕ) (Vector F D) → Dict (List ℕ) (Vector F D))
      → VectorCollection F D
      → VectorCollection F D
  in_first f c = elim c.indexes [
    | [] ↦ c
    | e ∷ rest ↦ record c { indexes = (e.0, record (e.1) { vectors = f (e.1).vectors }) ∷ rest }
  ]

module _ {F D : Type 0} ⦃fl : Float32 F⦄ where
  unfoldable pub post_process_results :
      List (SearchResult F)
      → QueryRequest F D
      → VectorCollection F D
      → List (SearchResult F) × VectorCollection F D
  unfolding skip_offset filter_scores drop_vectors is_with_payload erase_all in_first
  post_process_results found r c =
      let results =
        drop_vectors r.with_vectors (filter_scores r.params (skip_offset r.offset found)) in
      (results, if is_with_payload r.with_payload then c else in_first (erase_all results) c)

module _ {F D : Type 0} ⦃fl : Float32 F⦄ ⦃dl : Float64 D⦄ where
  unfoldable pub process_vector_search :
      List F
      → QueryRequest F D
      → VectorCollection F D
      → Result (List (SearchResult F)) × VectorCollection F D
  unfolding search_collection post_process_results
  process_vector_search query r c = elim (search_collection query r.limit r.filter r.params c) [
    | err e ↦ (err e, c)
    | ok found ↦
        if not (str_eq r.group_by "")
        then (err unsupported, c)
        else (let p = post_process_results found r c in (ok (p.0), p.1))
  ]

  unfoldable pub adjust_params : QueryRequest F D → QueryRequest F D
  unfolding adjust_search_params default_params
  adjust_params r = elim r.params [
    | none ↦ record r { params = some (adjust_search_params default_params) }
    | some p ↦ record r { params = some (adjust_search_params p) }
  ]

  -- The switch on the kind of a checked query; the other kinds are not implemented.
  unfoldable pub dispatch :
      Option Error × QueryRequest F D
      → VectorCollection F D
      → Result (List (SearchResult F)) × VectorCollection F D
  unfolding process_vector_search adjust_params
  dispatch (some e, r) c = (err e, c)
  dispatch (none, r) c = elim r.vector [
    | none ↦ (err unsupported, c)
    | some query ↦ process_vector_search query (adjust_params r) c
  ]

  unfoldable pub process_query :
      QueryRequest F D
      → VectorCollection F D
      → Result (List (SearchResult F)) × VectorCollection F D
  unfolding validate_request dispatch
  process_query request c = dispatch (validate_request c.dimension request) c
