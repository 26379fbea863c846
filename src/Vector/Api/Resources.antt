-- ===== src/Vector/Api/Resources.antt =====
-- src/vector/query/api.go: the requests for collections and for vectors.
use nexus_mind.Prelude.{ℕ, ◌+◌, Option, none, some, List, [], ◌∷◌, if◌then◌else◌, ◌==◌}
use nexus_mind.Prelude.Int.{ℤ, pos, negsuc, leb_ℤ}
use nexus_mind.Prelude.Dict.{Dict, nat_eq, bytes_eq, lookup, insert, erase}
use nexus_mind.Vector.Collection.{VectorCollection, new_vector_collection, collection_size}
use nexus_mind.Vector.Paths.{split_slashes, trim_slashes, atoi}
use nexus_mind.Vector.Api.{
  Api, get, post, put, delete, CreateRequest, Request, Info, Response, message, collection_list,
  collection_info, failed, bytes_of, parse_metric, only_part,
}

module _ {F D : Type 0} where
  unfoldable pub new_api : Api F D
  new_api = record { store = λ a. none; next = 0; collections = []; processors = [] }

  unfoldable pub register_collection : VectorCollection F D → Api F D → Api F D
  register_collection c api = record {
    store = λ a. if a == api.next then some c else api.store a;
    next = api.next + 1;
    collections = insert c.name api.next api.collections;
    processors = insert c.name api.next api.processors;
  }

  unfoldable pub info : VectorCollection F D → Info
  unfolding collection_size
  info c = record {
    name = c.name;
    dimension = c.dimension;
    metric = c.distance_func;
    vectors = collection_size c;
  }

  -- The collection that a name stands for.
  unfoldable pub find_collection : List ℕ → Api F D → Option (VectorCollection F D)
  find_collection name api = elim (lookup name api.collections) [
    | none ↦ none
    | some a ↦ api.store a
  ]

  -- In the order of the map, which is any.
  unfoldable pub infos : Dict (List ℕ) ℕ → Api F D → List Info
  unfolding info
  infos [] api = []
  infos ((name, a) ∷ rest) api =
      let others = infos rest api in
      elim (api.store a) [ none ↦ others | some c ↦ record (info c) { name = name } ∷ others ]

  unfoldable pub list_collections : Api F D → Response F
  unfolding infos
  list_collections api = record { status = 200; body = collection_list (infos api.collections api) }

  unfoldable pub create_checked : ℤ → CreateRequest → ℕ → Api F D → Response F × Api F D
  unfolding parse_metric register_collection new_vector_collection info
  create_checked now r dimension api = elim (lookup r.name api.collections) [
    | some a ↦ (failed 409, api)
    | none ↦
        let c = new_vector_collection r.name dimension (parse_metric r.metric) now in
        (record { status = 201; body = collection_info (info c) }, register_collection c api)
  ]

  unfoldable pub create_collection : ℤ → Option CreateRequest → Api F D → Response F × Api F D
  unfolding create_checked
  create_collection now none api = (failed 400, api)
  create_collection now (some r) api = elim r.name [
    | [] ↦ (failed 400, api)
    | c ∷ s ↦ elim r.dimension [
      | negsuc n ↦ (failed 400, api)
      | pos n ↦ if n == 0 then (failed 400, api) else create_checked now r n api
    ]
  ]

  unfoldable pub get_collection : List ℕ → Api F D → Response F
  unfolding find_collection info
  get_collection name api = elim (find_collection name api) [
    | none ↦ failed 404
    | some c ↦ record { status = 200; body = collection_info (info c) }
  ]

  unfoldable pub delete_collection : List ℕ → Api F D → Response F × Api F D
  delete_collection name api = elim (lookup name api.collections) [
    | none ↦ (failed 404, api)
    | some a ↦ (
      record { status = 200; body = message },
      record api {
        collections = erase name api.collections;
        processors = erase name api.processors;
      },
    )
  ]

  unfoldable pub handle_collections : ℤ → Request F D → Api F D → Response F × Api F D
  unfolding list_collections create_collection
  handle_collections now r api = elim r.method [
    | get ↦ (list_collections api, api)
    | post ↦ create_collection now r.create api
    | _ ↦ (failed 405, api)
  ]

  -- Listing checks its parameters and is not implemented further.
  unfoldable pub list_vectors : Request F D → Response F
  unfolding atoi
  list_vectors r =
      let limit = if bytes_eq.beq r.limit [] then some (pos 10) else atoi r.limit in
      let offset = if bytes_eq.beq r.offset [] then some (pos 0) else atoi r.offset in
      elim limit [
        | none ↦ failed 400
        | some l ↦ if leb_ℤ l (pos 0) then failed 400 else (elim offset [
          | none ↦ failed 400
          | some o ↦ if leb_ℤ (pos 0) o then failed 501 else failed 400
        ])
      ]

  abbrev pub all_vectors : Request F D → Response F
  all_vectors r = elim r.method [
    | get ↦ list_vectors r
    | post ↦ failed 501
    | put ↦ failed 501
    | _ ↦ failed 405
  ]

  -- The operations on vectors are not implemented: none changes anything.
  unfoldable pub handle_vector_operations : Request F D → List ℕ → Response F
  unfolding trim_slashes split_slashes list_vectors
  handle_vector_operations r path = elim (only_part (split_slashes (trim_slashes path))) [
    | none ↦ all_vectors r
    | some part ↦
        if bytes_eq.beq part (bytes_of "batch")
        then (elim r.method [ post ↦ failed 501 | _ ↦ failed 405 ])
        else if bytes_eq.beq part []
        then all_vectors r
        else (elim r.method [ get ↦ failed 501 | delete ↦ failed 501 | _ ↦ failed 405 ])
  ]
