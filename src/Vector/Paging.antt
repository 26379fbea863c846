-- ===== src/Vector/Paging.antt =====
-- src/vector/query/processor.go: what the offset and the payload flag of a query do.
use Prim.Native.Nat.{min}
use nexus_mind.Prelude.{
  ℕ, suc, ◌≤◌, ◌≡◌, refl, ◌∙◌, sym, ap, Option, none, some, List, [], ◌∷◌, length, length-take,
  arith, Option-cases, ◌⊎◌, inl, inr,
}
use nexus_mind.Prelude.Int.{pos}
use nexus_mind.Prelude.Slice.{sort_slice}
use nexus_mind.Prelude.Dict.{bytes_eq}
use nexus_mind.Vector.Numbers.{Float32, Float64}
use nexus_mind.Vector.Metadata.{MetadataFilter}
use nexus_mind.Vector.LinearIndex.{
  Error, Result, ok, err, SearchParams, SearchResult, LinearIndex, search, result_limit, is_before,
  collect, query_of,
}
use nexus_mind.Vector.Collection.{VectorCollection, params_or_new, search_collection}
use nexus_mind.Vector.Processor.{
  QueryRequest, validate_request, default_limit, default_groups, query_types, skip_offset,
  post_process_results, process_vector_search, adjust_params, dispatch, process_query,
}

module _ {F D : Type 0} where
  -- The same request from the first result on.
  abbrev pub from_start : QueryRequest F D → QueryRequest F D
  from_start r = record r { offset = pos 0 }

  validate-from_start :
      (n : ℕ) (r : QueryRequest F D)
      → validate_request n (from_start r)
        ≡ ((validate_request n r).0, from_start ((validate_request n r).1))
  unfolding validate_request default_limit default_groups query_types
  validate-from_start n r = ground arith

  validate-keeps :
      (n l : ℕ) (r : QueryRequest F D)
      → r.limit ≡ pos (suc l)
      → (((validate_request n r).1).limit ≡ pos (suc l))
        × (((validate_request n r).1).offset ≡ r.offset)
  unfolding validate_request default_limit default_groups
  validate-keeps n l r e = ground (arith, e)

List-cases : {A : Type 0} (xs : List A) → (xs ≡ []) ⊎ ((x : A) × (rest : List A) × (xs ≡ x ∷ rest))
List-cases [] = inl refl
List-cases (x ∷ rest) = inr (x, rest, refl)

Result-cases : {A : Type 0} (r : Result A) → ((a : A) × (r ≡ ok a)) ⊎ ((e : Error) × (r ≡ err e))
Result-cases (ok a) = inl (a, refl)
Result-cases (err e) = inr (e, refl)

module _ {F : Type 0} ⦃fl : Float32 F⦄ where
  skip_past :
      (n : ℕ) (found : List (SearchResult F)) → length found ≤ n → skip_offset (pos n) found ≡ found
  unfolding skip_offset
  skip_past n found h = ground arith

  skip_none : (found : List (SearchResult F)) → skip_offset (pos 0) found ≡ found
  unfolding skip_offset
  skip_none found = ground arith

module _ {F D : Type 0} ⦃fl : Float32 F⦄ ⦃dl : Float64 D⦄ where
  search-few :
      (query : List F) (l : ℕ) (filter : Option (MetadataFilter D))
      (params : Option (SearchParams F)) (idx : LinearIndex F D) (found : List (SearchResult F))
      → search query (pos (suc l)) filter params idx ≡ ok found
      → length found ≤ suc l
  unfolding search result_limit
  search-few query l filter params idx found e = ground (
    arith,
    e,
    length-take (min (suc l) (length idx.vectors)) (
        sort_slice (is_before idx.metric)
          (collect idx (query_of idx query) filter params idx.vectors)),
  )

  search_collection-few :
      (query : List F) (l : ℕ) (filter : Option (MetadataFilter D))
      (params : Option (SearchParams F)) (c : VectorCollection F D) (found : List (SearchResult F))
      → search_collection query (pos (suc l)) filter params c ≡ ok found
      → length found ≤ suc l
  unfolding search_collection
  search_collection-few query l filter params c found e = elim (List-cases c.indexes) [
    | inl q ↦ ground (arith, e, q)
    | inr (x, rest, q) ↦
        ground (arith, e, q, search-few query l filter (some (params_or_new params)) (x.1) found)
  ]

  post_process-from_start :
      (n : ℕ) (found : List (SearchResult F)) (r : QueryRequest F D) (c : VectorCollection F D)
      → r.offset ≡ pos n
      → length found ≤ n
      → post_process_results found (from_start r) c ≡ post_process_results found r c
  unfolding post_process_results
  post_process-from_start n found r c o h =
      let e : skip_offset r.offset found ≡ skip_offset (pos 0) found =
        ap (λ k. skip_offset k found) o ∙ skip_past n found h ∙ sym (skip_none found) in
      rw e refl

  process_vector_search-from_start :
      (n l : ℕ) (query : List F) (r : QueryRequest F D) (c : VectorCollection F D)
      → r.limit ≡ pos (suc l)
      → r.offset ≡ pos n
      → suc l ≤ n
      → process_vector_search query (from_start r) c ≡ process_vector_search query r c
  unfolding process_vector_search
  process_vector_search-from_start n l query r c e o h =
      elim (Result-cases (search_collection query r.limit r.filter r.params c)) [
        | inr (x, q) ↦ ground (arith, q)
        | inl (found, q) ↦
            let k : search_collection query (pos (suc l)) r.filter r.params c ≡ ok found =
              ap (λ t. search_collection query t r.filter r.params c) (sym e) ∙ q in
            let f = search_collection-few query l r.filter r.params c found k in
            ground (arith, q, post_process-from_start n found r c o (omega arith))
      ]

  adjust_params-keeps :
      (r : QueryRequest F D)
      → ((adjust_params r).limit ≡ r.limit)
        × ((adjust_params r).offset ≡ r.offset)
        × (adjust_params (from_start r) ≡ from_start (adjust_params r))
  unfolding adjust_params
  adjust_params-keeps r = ground arith

  dispatch-from_start :
      (n l : ℕ) (x : Option Error) (r : QueryRequest F D) (c : VectorCollection F D)
      → r.limit ≡ pos (suc l)
      → r.offset ≡ pos n
      → suc l ≤ n
      → dispatch (x, from_start r) c ≡ dispatch (x, r) c
  unfolding dispatch
  dispatch-from_start n l (some e) r c p o h = refl
  dispatch-from_start n l none r c p o h =
      let k = adjust_params-keeps r in
      elim (Option-cases r.vector) [
        | inl q ↦ ground (arith, q)
        | inr (query, q) ↦
            let s =
              process_vector_search-from_start n l query (adjust_params r) c (k.0 ∙ p) (k.1 ∙ o)
                h in
            ground (arith, q, k.2, s)
      ]

  -- A query whose offset is at least its limit, which is positive, is answered like the same query
  -- with offset 0, so that the pages after the first repeat it.
  pub process_query-from_start :
      (n l : ℕ) (r : QueryRequest F D) (c : VectorCollection F D)
      → r.limit ≡ pos (suc l)
      → r.offset ≡ pos n
      → suc l ≤ n
      → process_query r c ≡ process_query (from_start r) c
  unfolding process_query
  process_query-from_start n l r c e o h =
      let keeps = validate-keeps c.dimension l r e in
      let v = validate_request c.dimension r in
      sym (
        ap (λ x. dispatch x c) (validate-from_start c.dimension r)
        ∙ dispatch-from_start n l (v.0) (v.1) c (keeps.0) (keeps.1 ∙ o) h)
