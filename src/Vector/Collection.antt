-- ===== src/Vector/Collection.antt =====
-- src/models/vector_collection.go: vectors of one dimension, held in every index of the collection. The
-- indexes are those of src/vector/index/linear.go; the time is an argument.
use Prim.Native.String.{String}
use nexus_mind.Prelude.{ℕ, false, Option, none, some, List, [], ◌∷◌, length, if◌then◌else◌, ◌==◌}
use nexus_mind.Prelude.Int.{ℤ}
use nexus_mind.Prelude.Dict.{Dict, string_eq, insert}
use nexus_mind.Vector.Numbers.{Float32, Float64}
use nexus_mind.Vector.Model.{Vector}
use nexus_mind.Vector.Metadata.{
  MetadataSchema, new_metadata_schema, MetadataFilter, validate_metadata,
}
use nexus_mind.Vector.Distance.{DistanceMetric}
use nexus_mind.Vector.LinearIndex.{
  Error, wrong_dimension, wrong_type, no_indexes, Result, ok, err, SearchParams, SearchResult,
  LinearIndex, default, fast_search, precise_search, insert_vector, batch_insert, delete, search,
  size,
}

pub record VectorCollection (F D : Type 0) : Type 0 where
  pub name : List ℕ
  pub dimension : ℕ
  pub distance_func : DistanceMetric
  pub indexes : Dict String (LinearIndex F D)
  pub metadata_schema : Option MetadataSchema
  pub created_at : ℤ
  pub updated_at : ℤ

module _ {F : Type 0} ⦃fl : Float32 F⦄ where
  unfoldable pub new_search_params : SearchParams F
  new_search_params = record {
    hnsw_ef = 100;
    exact = false;
    indexed_only = false;
    use_quantization = false;
    search_strategy = default;
    score_threshold = fl.zero32;
  }

  unfoldable pub new_fast_search_params : SearchParams F
  new_fast_search_params = record {
    hnsw_ef = 40;
    exact = false;
    indexed_only = false;
    use_quantization = false;
    search_strategy = fast_search;
    score_threshold = fl.zero32;
  }

  unfoldable pub new_precise_search_params : SearchParams F
  new_precise_search_params = record {
    hnsw_ef = 300;
    exact = false;
    indexed_only = false;
    use_quantization = false;
    search_strategy = precise_search;
    score_threshold = fl.zero32;
  }

  unfoldable pub params_or_new : Option (SearchParams F) → SearchParams F
  unfolding new_search_params
  params_or_new none = new_search_params
  params_or_new (some p) = p

module _ {F D : Type 0} where
  unfoldable pub new_vector_collection : List ℕ → ℕ → DistanceMetric → ℤ → VectorCollection F D
  unfolding new_metadata_schema
  new_vector_collection name dimension metric now = record {
    name = name;
    dimension = dimension;
    distance_func = metric;
    indexes = [];
    metadata_schema = some new_metadata_schema;
    created_at = now;
    updated_at = now;
  }

  unfoldable pub add_index :
      String → LinearIndex F D → ℤ → VectorCollection F D → Option Error × VectorCollection F D
  add_index name index now c =
      if index.dimension == c.dimension
      then (none, record c { indexes = insert name index c.indexes; updated_at = now })
      else (some wrong_dimension, c)

  -- The checks on one vector: its dimension, and its metadata if the schema has fields.
  unfoldable pub validate : VectorCollection F D → Vector F D → Option Error
  unfolding validate_metadata
  validate c v =
      if length v.values == c.dimension
      then (elim c.metadata_schema [
        | none ↦ none
        | some schema ↦ elim schema.fields [
          | [] ↦ none
          | f ∷ fs ↦ elim (validate_metadata schema v.metadata) [
            | none ↦ none
            | some mismatch ↦ some wrong_type
          ]
        ]
      ])
      else some wrong_dimension

  unfoldable pub validate_all : VectorCollection F D → List (Vector F D) → Option Error
  unfolding validate
  validate_all c [] = none
  validate_all c (v ∷ vs) =
      let later = validate_all c vs in elim (validate c v) [ none ↦ later | some e ↦ some e ]

  -- Go through the indexes up to the first error; those before it are changed.
  unfoldable pub for_indexes :
      (LinearIndex F D → Option Error × LinearIndex F D)
      → Dict String (LinearIndex F D)
      → Option Error × Dict String (LinearIndex F D)
  for_indexes f [] = (none, [])
  for_indexes f ((name, index) ∷ rest) =
      let r = f index in
      let later = for_indexes f rest in
      elim (r.0) [ none ↦ (later.0, (name, r.1) ∷ later.1) | some e ↦ (some e, (name, r.1) ∷ rest) ]

  -- `UpdatedAt` is set where there was no error.
  unfoldable pub change_indexes :
      (LinearIndex F D → Option Error × LinearIndex F D)
      → ℤ
      → VectorCollection F D
      → Option Error × VectorCollection F D
  unfolding for_indexes
  change_indexes f now c =
      let r = for_indexes f c.indexes in
      elim (r.0) [
        | none ↦ (none, record c { indexes = r.1; updated_at = now })
        | some e ↦ (some e, record c { indexes = r.1 })
      ]

  -- A changed index, or the error and the index as it was.
  unfoldable pub or_same :
      LinearIndex F D → Result (LinearIndex F D) → Option Error × LinearIndex F D
  or_same index (ok changed) = (none, changed)
  or_same index (err e) = (some e, index)

  unfoldable pub delete_vector :
      List ℕ → ℤ → VectorCollection F D → Option Error × VectorCollection F D
  unfolding change_indexes or_same delete
  delete_vector id now c = change_indexes (λ index. or_same index (delete id now index)) now c

  -- The size of the first index.
  unfoldable pub collection_size : VectorCollection F D → ℕ
  unfolding size
  collection_size c = elim c.indexes [ [] ↦ 0 | e ∷ rest ↦ size (e.1) ]

module _ {F D : Type 0} ⦃fl : Float32 F⦄ where
  unfoldable pub insert_one :
      Vector F D → ℤ → VectorCollection F D → Option Error × VectorCollection F D
  unfolding change_indexes validate or_same insert_vector
  insert_one v now c = elim (validate c v) [
    | none ↦ change_indexes (λ index. or_same index (insert_vector v index)) now c
    | some e ↦ (some e, c)
  ]

  unfoldable pub insert_batch :
      List (Vector F D) → ℤ → VectorCollection F D → Option Error × VectorCollection F D
  unfolding change_indexes validate_all batch_insert
  insert_batch vs now c = elim (validate_all c vs) [
    | none ↦ change_indexes (batch_insert vs) now c
    | some e ↦ (some e, c)
  ]

module _ {F D : Type 0} ⦃fl : Float32 F⦄ ⦃dl : Float64 D⦄ where
  -- The first index answers.
  unfoldable pub search_collection :
      List F
      → ℤ
      → Option (MetadataFilter D)
      → Option (SearchParams F)
      → VectorCollection F D
      → Result (List (SearchResult F))
  unfolding search params_or_new
  search_collection query k filter params c =
      if length query == c.dimension
      then (elim c.indexes [
        | [] ↦ err no_indexes
        | e ∷ rest ↦ search query k filter (some (params_or_new params)) (e.1)
      ])
      else err wrong_dimension
