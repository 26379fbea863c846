-- ===== src/Vector/Routes.antt =====
-- src/vector/query/api.go: the two maps of the interface go together.
use mathlib.Core.Path.{subst}
use nexus_mind.Prelude.{
  ℕ, ◌<◌, ◌≡◌, refl, sym, ap, ◌∙◌, Option, none, some, List, arith, ==_iff, Option-cases, ◌⊎◌, inl,
  inr, Bool-cases,
}
use nexus_mind.Prelude.Int.{ℤ, pos, negsuc}
use nexus_mind.Prelude.Dict.{nat_eq, bytes_eq, bytes_beq_iff, lookup, lookup-insert, lookup-erase}
use nexus_mind.Vector.Numbers.{Float32, Float64}
use nexus_mind.Vector.Collection.{VectorCollection, new_vector_collection}
use nexus_mind.Vector.Processor.{}
use nexus_mind.Vector.Paths.{split_first, trim_prefix}
use nexus_mind.Vector.Api.{Api, Request, CreateRequest, bytes_of, parse_metric}
use nexus_mind.Vector.Api.Resources.{
  new_api, register_collection, create_checked, create_collection, delete_collection,
  handle_collections,
}
use nexus_mind.Vector.Api.Queries.{handle_resource, handle_collection_operations}
use nexus_mind.Vector.Kept.{KeepsNames, handle_resource-KeepsNames}

Int-cases : (n : ℤ) → ((k : ℕ) × (n ≡ pos k)) ⊎ ((k : ℕ) × (n ≡ negsuc k))
Int-cases (pos k) = inl (k, refl)
Int-cases (negsuc k) = inr (k, refl)

module _ {F D : Type 0} where
  -- The maps give a name the same collection, which has that name.
  pub record IsPaired (api : Api F D) : Type 0 where
    pub same : (name : List ℕ) → lookup name api.processors ≡ lookup name api.collections
    pub made : (name : List ℕ) (a : ℕ) → lookup name api.collections ≡ some a → a < api.next
    pub named :
        (name : List ℕ) (a : ℕ)
        → lookup name api.collections ≡ some a
        → (c : VectorCollection F D) × (api.store a ≡ some c) × (c.name ≡ name)

  new_api-IsPaired : IsPaired new_api
  unfolding new_api lookup
  new_api-IsPaired = record {
    same = λ name. refl;
    made = λ name a h. absurd (ground (arith, h));
    named = λ name a h. absurd (ground (arith, h));
  }

  KeepsNames-IsPaired : (api api' : Api F D) → KeepsNames api api' → IsPaired api → IsPaired api'
  KeepsNames-IsPaired api api' k p = record {
    same =
        λ name. ap (lookup name) k.processors ∙ p.same name ∙ sym (ap (lookup name) k.collections);
    made = λ name a h. rw k.next (p.made name a (sym (ap (lookup name) k.collections) ∙ h));
    named = λ name a h.
        let (c, e, n) = p.named name a (sym (ap (lookup name) k.collections) ∙ h) in
        let (c', e', n') = k.names a c e in (c', e', n' ∙ n);
  }

  register_collection-IsPaired :
      (c : VectorCollection F D) (api : Api F D)
      → IsPaired api
      → IsPaired (register_collection c api)
  unfolding register_collection
  register_collection-IsPaired c api p = record {
    same = λ name. ground (
      arith,
      lookup-insert c.name name api.next api.processors,
      lookup-insert c.name name api.next api.collections,
      p.same name,
    );
    made = λ name a h.
        ground (arith, h, lookup-insert c.name name api.next api.collections, p.made name a);
    named = λ name a h.
        let look = lookup-insert c.name name api.next api.collections in
        elim (Bool-cases (bytes_eq.beq c.name name)) [
          | inl q ↦
              let here : api.next ≡ a = ground (arith, h, look, q) in
              (c, ground (arith, here, ==_iff a api.next), (bytes_beq_iff c.name name).0 q)
          | inr q ↦
              let old : lookup name api.collections ≡ some a = ground (arith, h, look, q) in
              let (d, e, n) = p.named name a old in
              (d, ground (arith, e, p.made name a old, ==_iff a api.next), n)
        ];
  }

  delete_collection-IsPaired :
      (name : List ℕ) (api : Api F D) → IsPaired api → IsPaired ((delete_collection name api).1)
  unfolding delete_collection
  delete_collection-IsPaired name api p = elim (Option-cases (lookup name api.collections)) [
    | inl e ↦ rw (e, delete_collection) p
    | inr (x, e) ↦
        rw (e, delete_collection)
          (record {
            same = λ other. ground (
              arith,
              lookup-erase name other api.processors,
              lookup-erase name other api.collections,
              p.same other,
            );
            made = λ other a h.
                ground (arith, h, lookup-erase name other api.collections, p.made other a);
            named = λ other a h.
                p.named other a (ground (arith, h, lookup-erase name other api.collections));
          })
  ]

module _ {F D : Type 0} ⦃fl : Float32 F⦄ ⦃dl : Float64 D⦄ where
  create_checked-IsPaired :
      (now : ℤ) (r : CreateRequest) (dimension : ℕ) (api : Api F D)
      → IsPaired api
      → IsPaired ((create_checked now r dimension api).1)
  unfolding create_checked
  create_checked-IsPaired now r dimension api p =
      elim (Option-cases (lookup r.name api.collections)) [
        | inl e ↦
            rw (e, create_checked)
              (register_collection-IsPaired
                (new_vector_collection r.name dimension (parse_metric r.metric) now) api p)
        | inr (a, e) ↦ rw (e, create_checked) p
      ]

  -- A request to create leaves the interface alone, or passes its checks.
  create_collection-IsPaired :
      (now : ℤ) (r : Option CreateRequest) (api : Api F D)
      → IsPaired api
      → IsPaired ((create_collection now r api).1)
  unfolding create_collection
  create_collection-IsPaired now none api p = p
  create_collection-IsPaired now (some r) api p =
      let x = (create_collection now (some r) api).1 in
      elim (Int-cases r.dimension) [
        | inr (n, e) ↦ let s : x ≡ api = ground (arith, e) in subst IsPaired (sym s) p
        | inl (n, e) ↦
            let s : (x ≡ api) ⊎ (x ≡ (create_checked now r n api).1) = ground (arith, e) in
            elim s [
              | inl k ↦ subst IsPaired (sym k) p
              | inr k ↦ subst IsPaired (sym k) (create_checked-IsPaired now r n api p)
            ]
      ]

  handle_collections-IsPaired :
      (now : ℤ) (r : Request F D) (api : Api F D)
      → IsPaired api
      → IsPaired ((handle_collections now r api).1)
  unfolding handle_collections
  handle_collections-IsPaired now r api p =
      let x = (handle_collections now r api).1 in
      let s : (x ≡ api) ⊎ (x ≡ (create_collection now r.create api).1) = ground arith in
      elim s [
        | inl k ↦ subst IsPaired (sym k) p
        | inr k ↦ subst IsPaired (sym k) (create_collection-IsPaired now r.create api p)
      ]

  handle_collection_operations-IsPaired :
      (r : Request F D) (api : Api F D)
      → IsPaired api
      → IsPaired ((handle_collection_operations r api).1)
  unfolding handle_collection_operations
  handle_collection_operations-IsPaired r api p =
      let x = (handle_collection_operations r api).1 in
      let parts = split_first (trim_prefix (bytes_of "/collections/") r.path) in
      elim (Option-cases (parts.1)) [
        | inl e ↦
            let s : (x ≡ api) ⊎ (x ≡ (delete_collection (parts.0) api).1) = ground (arith, e) in
            (elim s [
              | inl k ↦ subst IsPaired (sym k) p
              | inr k ↦ subst IsPaired (sym k) (delete_collection-IsPaired (parts.0) api p)
            ])
        | inr (resource, e) ↦
            let y = (handle_resource r (parts.0) resource api).1 in
            let s : (x ≡ api) ⊎ (x ≡ y) = ground (arith, e) in
            (elim s [
              | inl k ↦ subst IsPaired (sym k) p
              | inr k ↦ subst IsPaired (sym k) (
                  KeepsNames-IsPaired api y (handle_resource-KeepsNames r (parts.0) resource api) p)
            ])
      ]

  -- An interface that has served requests and had collections registered.
  pub data Served : Api F D → Type 0 where
    new : Served new_api
    registers :
        {api : Api F D} (c : VectorCollection F D) → Served api → Served (register_collection c api)
    at_collections :
        {api : Api F D} (now : ℤ) (r : Request F D)
        → Served api
        → Served ((handle_collections now r api).1)
    at_collection :
        {api : Api F D} (r : Request F D)
        → Served api
        → Served ((handle_collection_operations r api).1)

  -- Whatever collections were registered and whatever requests were served, to create and delete
  -- collections and to query them: a name has a processor exactly when it has a collection, it is
  -- the processor of that very collection, and the collection is there and has that name.
  pub Served-IsPaired : {api : Api F D} → Served api → IsPaired api
  Served-IsPaired new = new_api-IsPaired
  Served-IsPaired (registers {api} c s) = register_collection-IsPaired c api (Served-IsPaired s)
  Served-IsPaired (at_collections {api} now r s) =
      handle_collections-IsPaired now r api (Served-IsPaired s)
  Served-IsPaired (at_collection {api} r s) =
      handle_collection_operations-IsPaired r api (Served-IsPaired s)
