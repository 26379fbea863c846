-- ===== src/Vector/Api/Queries.antt =====
-- src/vector/query/api.go: queries, and the routes below a collection.
use nexus_mind.Prelude.{ℕ, Option, none, some, List, [], ◌∷◌, if◌then◌else◌, ◌==◌}
use nexus_mind.Prelude.Dict.{nat_eq, bytes_eq, lookup}
use text.Mathlib.Text.{◌==◌ as str_eq}
use nexus_mind.Vector.Numbers.{Float32, Float64}
use nexus_mind.Vector.LinearIndex.{Error, Result, ok, err, SearchResult}
use nexus_mind.Vector.Processor.{QueryRequest, process_query}
use nexus_mind.Vector.Paths.{has_prefix, trim_prefix, split_slashes, split_first, trim_slashes}
use nexus_mind.Vector.Api.{
  Api, get, post, delete, Request, Response, results, failed, bytes_of, only_part, is_part,
}
use nexus_mind.Vector.Api.Resources.{get_collection, delete_collection, handle_vector_operations}

module _ {F D : Type 0} ⦃fl : Float32 F⦄ ⦃dl : Float64 D⦄ where
  -- `processor.ProcessQuery` for the processor of the collection at the address.
  unfoldable pub process_at :
      QueryRequest F D → ℕ → Api F D → Result (List (SearchResult F)) × Api F D
  unfolding process_query
  process_at q a api = elim (api.store a) [
    | none ↦ (err Error.no_query, api)
    | some c ↦
        let r = process_query q c in
        (r.0, record api { store = λ b. if b == a then some (r.1) else api.store b })
  ]

  unfoldable pub answer_with : Result (List (SearchResult F)) × Api F D → Response F × Api F D
  answer_with (err e, api) = (failed 400, api)
  answer_with (ok found, api) = (record { status = 200; body = results (found ∷ []) }, api)

  unfoldable pub query_one : Option (QueryRequest F D) → ℕ → Api F D → Response F × Api F D
  unfolding process_at answer_with
  query_one none a api = (failed 400, api)
  query_one (some q) a api = answer_with (process_at q a api)

  -- The first error ends the batch; what the queries before it have changed stays.
  unfoldable pub query_all :
      List (QueryRequest F D) → ℕ → Api F D → Result (List (List (SearchResult F))) × Api F D
  unfolding process_at
  query_all [] a api = (ok [], api)
  query_all (q ∷ qs) a api =
      let r = process_at q a api in
      let rest = query_all qs a (r.1) in
      elim (r.0) [
        | err e ↦ (err e, r.1)
        | ok found ↦ elim (rest.0) [
          | err e ↦ (err e, rest.1)
          | ok others ↦ (ok (found ∷ others), rest.1)
        ]
      ]

  unfoldable pub batch_query : Option (List (QueryRequest F D)) → ℕ → Api F D → Response F × Api F D
  unfolding query_all
  batch_query none a api = (failed 400, api)
  batch_query (some qs) a api =
      let r = query_all qs a api in
      elim (r.0) [
        | err e ↦ (failed 400, r.1)
        | ok found ↦ (record { status = 200; body = results found }, r.1)
      ]

  unfoldable pub groups_query : Option (QueryRequest F D) → ℕ → Api F D → Response F × Api F D
  unfolding process_at answer_with
  groups_query none a api = (failed 400, api)
  groups_query (some q) a api =
      if str_eq q.group_by "" then (failed 400, api) else answer_with (process_at q a api)

  unfoldable pub handle_query_operations :
      Request F D → List ℕ → List ℕ → Api F D → Response F × Api F D
  unfolding query_one batch_query groups_query trim_slashes split_slashes
  handle_query_operations r name path api =
      let part = only_part (split_slashes (trim_slashes path)) in
      elim r.method [
        | post ↦ elim (lookup name api.processors) [
          | none ↦ (failed 404, api)
          | some a ↦
              if is_part part "batch"
              then batch_query r.searches a api
              else if is_part part "groups"
              then groups_query r.query a api
              else query_one r.query a api
        ]
        | _ ↦ (failed 405, api)
      ]

  unfoldable pub handle_resource : Request F D → List ℕ → List ℕ → Api F D → Response F × Api F D
  unfolding trim_prefix has_prefix handle_vector_operations handle_query_operations
  handle_resource r name resource api =
      if has_prefix (bytes_of "vectors") resource
      then (handle_vector_operations r (trim_prefix (bytes_of "vectors") resource), api)
      else if has_prefix (bytes_of "query") resource
      then handle_query_operations r name (trim_prefix (bytes_of "query") resource) api
      else (failed 404, api)

  unfoldable pub handle_collection_operations : Request F D → Api F D → Response F × Api F D
  unfolding trim_prefix split_first get_collection delete_collection handle_resource
  handle_collection_operations r api =
      let parts = split_first (trim_prefix (bytes_of "/collections/") r.path) in
      let name = parts.0 in
      elim (lookup name api.collections) [
        | none ↦ (failed 404, api)
        | some a ↦ elim (parts.1) [
          | none ↦ elim r.method [
            | get ↦ (get_collection name api, api)
            | delete ↦ delete_collection name api
            | _ ↦ (failed 405, api)
          ]
          | some resource ↦ handle_resource r name resource api
        ]
      ]
