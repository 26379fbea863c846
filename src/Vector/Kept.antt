-- ===== src/Vector/Kept.antt =====
-- src/vector/query/api.go: what queries leave as it is.
use mathlib.Core.Path.{subst}
use text.Mathlib.Text.{◌==◌ as str_eq}
use nexus_mind.Prelude.{
  ℕ, ◌≡◌, refl, sym, ap, ◌∙◌, Bool, true, false, Option, none, some, List, [], ◌∷◌, arith,
  if◌then◌else◌, ◌==◌, ==_iff, Option-cases, ◌⊎◌, inl, inr, Bool-cases, some-inj,
}
use nexus_mind.Prelude.Dict.{Dict, nat_eq, bytes_eq, lookup}
use nexus_mind.Vector.Numbers.{Float32, Float64}
use nexus_mind.Vector.Model.{Vector}
use nexus_mind.Vector.LinearIndex.{Error, Result, ok, err, SearchResult}
use nexus_mind.Vector.Collection.{VectorCollection, search_collection}
use nexus_mind.Vector.Processor.{
  QueryRequest, process_query, dispatch, process_vector_search, post_process_results, in_first,
  erase_all, adjust_params, validate_request,
}
use nexus_mind.Vector.Paths.{has_prefix, trim_prefix}
use nexus_mind.Vector.Api.{Api, Request, Response, bytes_of, failed}
use nexus_mind.Vector.Api.Resources.{}
use nexus_mind.Vector.Api.Queries.{
  process_at, answer_with, query_one, query_all, batch_query, groups_query, handle_query_operations,
  handle_resource,
}

Result-cases : {A : Type 0} (r : Result A) → ((a : A) × (r ≡ ok a)) ⊎ ((e : Error) × (r ≡ err e))
Result-cases (ok a) = inl (a, refl)
Result-cases (err e) = inr (e, refl)

module _ {F D : Type 0} where
  -- A collection's place and its name stay.
  pub record KeepsNames (api api' : Api F D) : Type 0 where
    pub collections : api'.collections ≡ api.collections
    pub processors : api'.processors ≡ api.processors
    pub next : api'.next ≡ api.next
    pub names :
        (a : ℕ) (c : VectorCollection F D)
        → api.store a ≡ some c
        → (c' : VectorCollection F D) × (api'.store a ≡ some c') × (c'.name ≡ c.name)

  KeepsNames-refl : (api : Api F D) → KeepsNames api api
  KeepsNames-refl api = record {
    collections = refl;
    processors = refl;
    next = refl;
    names = λ a c h. (c, h, refl);
  }

  KeepsNames-trans : (x y z : Api F D) → KeepsNames x y → KeepsNames y z → KeepsNames x z
  KeepsNames-trans x y z p q = record {
    collections = q.collections ∙ p.collections;
    processors = q.processors ∙ p.processors;
    next = q.next ∙ p.next;
    names = λ a c h.
        let (d, e, n) = p.names a c h in let (d', e', n') = q.names a d e in (d', e', n' ∙ n);
  }

module _ {F D : Type 0} ⦃fl : Float32 F⦄ ⦃dl : Float64 D⦄ where
  in_first-name :
      (f : Dict (List ℕ) (Vector F D) → Dict (List ℕ) (Vector F D)) (c : VectorCollection F D)
      → (in_first f c).name ≡ c.name
  unfolding in_first
  in_first-name f c = ground arith

  post_process_results-name :
      (found : List (SearchResult F)) (r : QueryRequest F D) (c : VectorCollection F D)
      → ((post_process_results found r c).1).name ≡ c.name
  unfolding post_process_results
  post_process_results-name found r c =
      ground (arith, in_first-name (erase_all ((post_process_results found r c).0)) c)

  process_vector_search-name :
      (query : List F) (r : QueryRequest F D) (c : VectorCollection F D)
      → ((process_vector_search query r c).1).name ≡ c.name
  unfolding process_vector_search
  process_vector_search-name query r c =
      elim (Result-cases (search_collection query r.limit r.filter r.params c)) [
        | inl (found, e) ↦ ground (arith, e, post_process_results-name found r c)
        | inr (x, e) ↦ ground (arith, e)
      ]

  dispatch-name :
      (x : Option Error) (r : QueryRequest F D) (c : VectorCollection F D)
      → ((dispatch (x, r) c).1).name ≡ c.name
  unfolding dispatch
  dispatch-name (some e) r c = refl
  dispatch-name none r c = elim (Option-cases r.vector) [
    | inl e ↦ ground (arith, e)
    | inr (query, e) ↦ ground (arith, e, process_vector_search-name query (adjust_params r) c)
  ]

  process_query-name :
      (q : QueryRequest F D) (c : VectorCollection F D) → ((process_query q c).1).name ≡ c.name
  unfolding process_query
  process_query-name q c = let v = validate_request c.dimension q in dispatch-name (v.0) (v.1) c

  process_at-KeepsNames :
      (q : QueryRequest F D) (a : ℕ) (api : Api F D) → KeepsNames api ((process_at q a api).1)
  unfolding process_at
  process_at-KeepsNames q a api = elim (Option-cases (api.store a)) [
    | inl e ↦ rw (e, process_at) (KeepsNames-refl api)
    | inr (c, e) ↦
        rw (e, process_at)
          (record {
            collections = refl;
            processors = refl;
            next = refl;
            names = λ b d h. elim (Bool-cases (b == a)) [
              | inl s ↦
                  let k : some c ≡ some d = sym e ∙ ap api.store (sym ((==_iff b a).0 s)) ∙ h in
                  (
                    (process_query q c).1,
                    ground (arith, s),
                    process_query-name q c
                        ∙ ap (λ (x : VectorCollection F D). x.name) (some-inj c d k),
                  )
              | inr s ↦ (d, ground (arith, s, h), refl)
            ];
          })
  ]

  query_all-KeepsNames :
      (qs : List (QueryRequest F D)) (a : ℕ) (api : Api F D)
      → KeepsNames api ((query_all qs a api).1)
  unfolding query_all
  query_all-KeepsNames [] a api = KeepsNames-refl api
  query_all-KeepsNames (q ∷ qs) a api =
      let r = process_at q a api in
      let one = process_at-KeepsNames q a api in
      let rest = query_all-KeepsNames qs a (r.1) in
      elim (Result-cases (r.0)) [
        | inr (x, e) ↦ rw (e, query_all) one
        | inl (found, e) ↦
            let s : (query_all qs a (r.1)).1 ≡ (query_all (q ∷ qs) a api).1 =
              ground (arith, e, Result-cases ((query_all qs a (r.1)).0)) in
            subst (KeepsNames api) s
              (KeepsNames-trans api (r.1) ((query_all qs a (r.1)).1) one rest)
      ]

  answer_with-same :
      (x : Result (List (SearchResult F))) (api : Api F D) → (answer_with (x, api)).1 ≡ api
  unfolding answer_with
  answer_with-same (ok found) api = refl
  answer_with-same (err e) api = refl

  query_one-KeepsNames :
      (q : Option (QueryRequest F D)) (a : ℕ) (api : Api F D)
      → KeepsNames api ((query_one q a api).1)
  unfolding query_one
  query_one-KeepsNames none a api = KeepsNames-refl api
  query_one-KeepsNames (some q) a api =
      let r = process_at q a api in
      rw (answer_with-same (r.0) (r.1)) (process_at-KeepsNames q a api)

  groups_query-KeepsNames :
      (q : Option (QueryRequest F D)) (a : ℕ) (api : Api F D)
      → KeepsNames api ((groups_query q a api).1)
  unfolding groups_query
  groups_query-KeepsNames none a api = KeepsNames-refl api
  groups_query-KeepsNames (some q) a api = elim (Bool-cases (str_eq q.group_by "")) [
    | inl e ↦ rw (e, groups_query) (KeepsNames-refl api)
    | inr e ↦
        let r = process_at q a api in
        rw (e, groups_query) (rw (answer_with-same (r.0) (r.1)) (process_at-KeepsNames q a api))
  ]

  batch_query-KeepsNames :
      (qs : Option (List (QueryRequest F D))) (a : ℕ) (api : Api F D)
      → KeepsNames api ((batch_query qs a api).1)
  unfolding batch_query
  batch_query-KeepsNames none a api = KeepsNames-refl api
  batch_query-KeepsNames (some qs) a api =
      let s : (query_all qs a api).1 ≡ (batch_query (some qs) a api).1 =
        ground (arith, Result-cases ((query_all qs a api).0)) in
      subst (KeepsNames api) s (query_all-KeepsNames qs a api)

  handle_query_operations-KeepsNames :
      (r : Request F D) (name path : List ℕ) (api : Api F D)
      → KeepsNames api ((handle_query_operations r name path api).1)
  unfolding handle_query_operations
  handle_query_operations-KeepsNames r name path api =
      let x = (handle_query_operations r name path api).1 in
      elim (Option-cases (lookup name api.processors)) [
        | inl e ↦ let s : x ≡ api = ground (arith, e) in rw s (KeepsNames-refl api)
        | inr (a, e) ↦
            let s : (x ≡ api)
                ⊎ ((x ≡ (batch_query r.searches a api).1)
                    ⊎ ((x ≡ (groups_query r.query a api).1) ⊎ (x ≡ (query_one r.query a api).1))) =
              ground (arith, e) in
            elim s [
              | inl k ↦ subst (KeepsNames api) (sym k) (KeepsNames-refl api)
              | inr (inl k) ↦
                  subst (KeepsNames api) (sym k) (batch_query-KeepsNames r.searches a api)
              | inr (inr (inl k)) ↦
                  subst (KeepsNames api) (sym k) (groups_query-KeepsNames r.query a api)
              | inr (inr (inr k)) ↦
                  subst (KeepsNames api) (sym k) (query_one-KeepsNames r.query a api)
            ]
      ]

  if-KeepsNames :
      (api : Api F D) (b : Bool) (x : Response F × Api F D)
      → KeepsNames api (x.1)
      → KeepsNames api ((if b then x else (failed 404, api)).1)
  if-KeepsNames api true x k = k
  if-KeepsNames api false x k = KeepsNames-refl api

  pub handle_resource-KeepsNames :
      (r : Request F D) (name resource : List ℕ) (api : Api F D)
      → KeepsNames api ((handle_resource r name resource api).1)
  unfolding handle_resource
  handle_resource-KeepsNames r name resource api =
      elim (Bool-cases (has_prefix (bytes_of "vectors") resource)) [
        | inl e ↦ rw (e, handle_resource) (KeepsNames-refl api)
        | inr e ↦
            let found =
              handle_query_operations r name (trim_prefix (bytes_of "query") resource) api in
            rw (e, handle_resource)
              (if-KeepsNames api (has_prefix (bytes_of "query") resource) found (
                handle_query_operations-KeepsNames r name (trim_prefix (bytes_of "query") resource)
                  api))
      ]
