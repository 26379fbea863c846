-- ===== src/Vector/Tests.antt =====
-- src/models/ and src/vector/: the theorems at small vectors, over natural numbers for floats.

use mathlib.Core.List.{Memᴰ}
use nexus_mind.Prelude.{
  ℕ, ◌+◌, ◌-◌, ◌*◌, ◌/◌, ◌≡◌, ◌⊎◌, refl, true, false, none, some, List, [], ◌∷◌, length, arith, ltb,
  leb, ◌==◌,
}
use nexus_mind.Prelude.Int.{pos, negsuc}
use nexus_mind.Prelude.Dict.{string_eq, bytes_eq, insert}
use nexus_mind.Vector.Numbers.{Float32, Float64}
use nexus_mind.Vector.Values.{nil, str, no_fields, and_field}
use nexus_mind.Vector.Model.{Vector}
use nexus_mind.Vector.Bytes.{ok, deserialize_vector, serialize}
use nexus_mind.Vector.RoundTrip.{deserialize_vector-serialize}
use nexus_mind.Vector.Bounds.{Fits, deserialize_vector-Fits}
use nexus_mind.Vector.Metadata.{new_metadata_schema}
use nexus_mind.Vector.Distance.{cosine, euclidean, manhattan}
use nexus_mind.Vector.LinearIndex as Index
use nexus_mind.Vector.LinearIndex.{
  Error, LinearIndex, SearchResult, new_linear_index, insert_vector,
}
use nexus_mind.Vector.Collection.{VectorCollection, new_vector_collection, add_index, insert_batch}
use nexus_mind.Vector.Atomic.{Made, AllValid, insert_all, in_each, insert_batch_lem}
use nexus_mind.Vector.Processor.{
  QueryRequest, value, process_query, post_process_results, is_with_payload,
}
use nexus_mind.Vector.Paging.{from_start, process_query-from_start}
use nexus_mind.Vector.Erased.{Refused, post_process_results-Refused}
use nexus_mind.Prelude.Dict.{lookup}
use nexus_mind.Vector.Api.{Request, Method, bytes_of, parse_metric}
use nexus_mind.Vector.Paths.{to_lower}
use nexus_mind.Vector.Api.Resources.{new_api, handle_collections, create_collection, create_checked}
use nexus_mind.Vector.Routes.{Served, IsPaired, Served-IsPaired}

instance abbrev natural32 : Float32 ℕ
natural32 = record {
  add = λ a b. a + b;
  sub = λ a b. a - b;
  mul = λ a b. a * b;
  div = λ a b. a / b;
  zero32 = 0;
  one32 = 1;
  infinity = 1000000;
  sqrt = λ a. a;
  abs = λ a. a;
  exp_neg = λ a. a;
  exp_neg_half = λ a. a;
  bits = λ a. a;
  from_bits = λ a. a;
  lt32 = ltb;
  le32 = leb;
  eq32 = ◌==◌;
}

instance abbrev natural64 : Float64 ℕ
natural64 = record { lt64 = ltb; eq64 = ◌==◌; of_int = λ n. elim n [ pos k ↦ k | negsuc k ↦ 0 ] }

abbrev tagged : Vector ℕ ℕ
tagged = record {
  id = 97 ∷ [];
  values = 3 ∷ 4 ∷ [];
  metadata = some (and_field "color" (str "red") no_fields);
  timestamp = pos 5;
  deleted = false;
}

deserialize_vector-serialize_example :
    deserialize_vector (serialize tagged) ≡ ok (record tagged { metadata = some no_fields })
deserialize_vector-serialize_example =
    deserialize_vector-serialize tagged (omega arith) (omega arith) (omega arith)
      (omega arith, refl, (omega arith, refl, tt))

-- The length says five bytes, and there are two.
deserialize_vector-Fits_example :
    Fits {F = ℕ} {D = ℕ} 6 (deserialize_vector (5 ∷ 0 ∷ 0 ∷ 0 ∷ 1 ∷ 2 ∷ []))
deserialize_vector-Fits_example = deserialize_vector-Fits ℕ ℕ (5 ∷ 0 ∷ 0 ∷ 0 ∷ 1 ∷ 2 ∷ [])

abbrev other : Vector ℕ ℕ
other = record {
  id = 98 ∷ [];
  values = 9 ∷ 9 ∷ [];
  metadata = none;
  timestamp = pos 6;
  deleted = false;
}

abbrev index : LinearIndex ℕ ℕ
index = record {
  dimension = 2;
  distance_func = λ a b. length a + length b;
  metric = euclidean;
  vectors = (97 ∷ [], tagged) ∷ (98 ∷ [], other) ∷ [];
  keep_normalized = false;
}

abbrev empty : VectorCollection ℕ ℕ
empty = record {
  name = 99 ∷ [];
  dimension = 2;
  distance_func = euclidean;
  indexes = [];
  metadata_schema = some (record { fields = [] });
  created_at = pos 1;
  updated_at = pos 1;
}

empty-Made : Made empty
unfolding new_vector_collection new_metadata_schema
empty-Made = Made.made_new (99 ∷ []) 2 euclidean (pos 1)

-- The collection with the index under "main".
abbrev collection : VectorCollection ℕ ℕ
collection = record empty { indexes = ("main", index) ∷ []; updated_at = pos 2 }

collection-Made : Made collection
unfolding add_index insert
collection-Made = Made.made_index "main" index (pos 2) empty-Made

insert_batch_lem_example :
    ((e : Error) × (insert_batch (tagged ∷ other ∷ []) (pos 9) collection ≡ (some e, collection)))
    ⊎ (AllValid collection (tagged ∷ other ∷ [])
        × (insert_batch (tagged ∷ other ∷ []) (pos 9) collection ≡ (
          none,
          record collection {
            indexes = in_each (insert_all (tagged ∷ other ∷ [])) collection.indexes;
            updated_at = pos 9;
          },
        )))
insert_batch_lem_example = insert_batch_lem collection (tagged ∷ other ∷ []) (pos 9) collection-Made

-- The second page of one result each.
abbrev second_page : QueryRequest ℕ ℕ
second_page = record {
  vector = some (1 ∷ 2 ∷ []);
  point_id = "";
  recommend = none;
  scroll = none;
  sample = "";
  filter = none;
  params = none;
  limit = pos 1;
  offset = pos 1;
  with_vectors = true;
  with_payload = value nil;
  group_by = "";
  group_size = pos 0;
  group_limit = pos 0;
  using = "";
}

process_query-from_start_example :
    process_query second_page collection ≡ process_query (from_start second_page) collection
process_query-from_start_example =
    process_query-from_start 1 0 second_page collection refl refl (omega arith)

abbrev hit : SearchResult ℕ
hit = record { id = 97 ∷ []; distance = 4; vector = some (97 ∷ []); score = 4 }

post_process_results-Refused_example :
    (index' : LinearIndex ℕ ℕ) × (((post_process_results (hit ∷ []) second_page collection).1
        ).indexes
      ≡ ("main", index') ∷ [])
    × ((x : SearchResult ℕ) (key : List ℕ)
        → Memᴰ x ((post_process_results (hit ∷ []) second_page collection).0)
        → x.vector ≡ some key
        → Refused key index')
unfolding is_with_payload
post_process_results-Refused_example =
    post_process_results-Refused (hit ∷ []) second_page collection "main" index [] refl refl

-- POST /collections with a name and two dimensions.
abbrev creation : Request ℕ ℕ
creation = record {
  method = Method.post;
  path = bytes_of "/collections";
  limit = [];
  offset = [];
  create = some (record { name = bytes_of "c"; dimension = pos 2; metric = bytes_of "L2" });
  query = none;
  searches = none;
}

Served-IsPaired_example : IsPaired {F = ℕ} {D = ℕ} ((handle_collections (pos 1) creation new_api).1)
Served-IsPaired_example = Served-IsPaired (Served.at_collections (pos 1) creation Served.new)

created : (handle_collections {F = ℕ} {D = ℕ} (pos 1) creation new_api).0.status ≡ 201
unfolding handle_collections create_collection create_checked new_api lookup
created = refl

metric_of_capitals : parse_metric (bytes_of "L2") ≡ euclidean
unfolding parse_metric to_lower
metric_of_capitals = refl

-- "CİTYBLOCK" with a dotted I.
metric_of_dotted : parse_metric (67 ∷ 196 ∷ 176 ∷ bytes_of "TYBLOCK") ≡ manhattan
unfolding parse_metric to_lower
metric_of_dotted = refl

metric_unknown : parse_metric (bytes_of "chebyshev") ≡ cosine
unfolding parse_metric to_lower
metric_unknown = refl
