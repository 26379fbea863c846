-- ===== src/Vector/Erased.antt =====
-- src/vector/query/processor.go: a query without a payload takes the metadata from what is stored.
use mathlib.Core.List.{Memᴰ}
use nexus_mind.Prelude.{
  ℕ, ◌≡◌, false, Option, none, some, List, [], ◌∷◌, arith, Option-cases, inl, inr, ◌∙◌, sym, ap,
}
use nexus_mind.Prelude.Dict.{Dict, bytes_eq, lookup, lookup-insert, beq_refl}
use Prim.Native.String.{String}
use nexus_mind.Vector.Numbers.{Float32, Float64}
use nexus_mind.Vector.Model.{Vector}
use nexus_mind.Vector.Metadata.{FilterCondition, MetadataFilter, match_vector}
use nexus_mind.Vector.LinearIndex.{SearchResult, LinearIndex}
use nexus_mind.Vector.Collection.{VectorCollection}
use nexus_mind.Vector.Processor.{
  QueryRequest, is_with_payload, erase_metadata, erase_all, in_first, post_process_results,
}

-- What stands at the key, if anything does, has no metadata.
abbrev pub HasNone : {F D : Type 0} → List ℕ → Dict (List ℕ) (Vector F D) → Type 0
HasNone {F} {D} key vectors = (v : Vector F D) → lookup key vectors ≡ some v → v.metadata ≡ none

module _ {F D : Type 0} where
  erase_metadata-HasNone_same :
      (key : List ℕ) (vectors : Dict (List ℕ) (Vector F D))
      → HasNone key (erase_metadata (some key) vectors)
  unfolding erase_metadata
  erase_metadata-HasNone_same key vectors v e = elim (Option-cases (lookup key vectors)) [
    | inl q ↦ ground (arith, e, q)
    | inr (w, q) ↦
        ground
          (arith, e, q, lookup-insert key key (record w { metadata = none }) vectors, beq_refl key)
  ]

  erase_metadata-HasNone :
      (key : List ℕ) (at : Option (List ℕ)) (vectors : Dict (List ℕ) (Vector F D))
      → HasNone key vectors
      → HasNone key (erase_metadata at vectors)
  unfolding erase_metadata
  erase_metadata-HasNone key none vectors h v e = h v e
  erase_metadata-HasNone key (some k) vectors h v e = elim (Option-cases (lookup k vectors)) [
    | inl q ↦ ground (arith, e, q, h v)
    | inr (w, q) ↦
        ground (arith, e, q, h v, lookup-insert k key (record w { metadata = none }) vectors)
  ]

  erase_all-HasNone :
      (key : List ℕ) (rs : List (SearchResult F)) (vectors : Dict (List ℕ) (Vector F D))
      → HasNone key vectors
      → HasNone key (erase_all rs vectors)
  unfolding erase_all
  erase_all-HasNone key [] vectors h = h
  erase_all-HasNone key (r ∷ rs) vectors h =
      erase_all-HasNone key rs (erase_metadata r.vector vectors)
        (erase_metadata-HasNone key r.vector vectors h)

  erase_all-mem :
      (key : List ℕ) (x : SearchResult F) (rs : List (SearchResult F))
      (vectors : Dict (List ℕ) (Vector F D))
      → Memᴰ x rs
      → x.vector ≡ some key
      → HasNone key (erase_all rs vectors)
  unfolding erase_all
  erase_all-mem key x [] vectors m e = elim m [ ]
  erase_all-mem key x (r ∷ rs) vectors (Memᴰ.head q) e =
      let k : r.vector ≡ some key = ap (λ (y : SearchResult F). y.vector) (sym q) ∙ e in
      erase_all-HasNone key rs (erase_metadata r.vector vectors)
        (rw k (erase_metadata-HasNone_same key vectors))
  erase_all-mem key x (r ∷ rs) vectors (Memᴰ.tail m) e =
      erase_all-mem key x rs (erase_metadata r.vector vectors) m e

module _ {F D : Type 0} ⦃fl : Float32 F⦄ ⦃dl : Float64 D⦄ where
  -- A filter with a condition refuses what is stored at the key.
  abbrev pub Refused : List ℕ → LinearIndex F D → Type 0
  Refused key index =
      (v : Vector F D) (k : FilterCondition D) (ks : List (FilterCondition D))
      (f : MetadataFilter D)
      → lookup key index.vectors ≡ some v
      → f.conditions ≡ k ∷ ks
      → match_vector (some f) v ≡ false

  match_vector-none :
      (v : Vector F D) (k : FilterCondition D) (ks : List (FilterCondition D))
      (f : MetadataFilter D)
      → v.metadata ≡ none
      → f.conditions ≡ k ∷ ks
      → match_vector (some f) v ≡ false
  unfolding match_vector
  match_vector-none v k ks f e q = ground (arith, e, q)

  -- When results are prepared for a request without a payload, then every filter that has a
  -- condition refuses, in the resulting state, whatever the first index holds where a result points
  -- to; the other indexes stay as they were.
  pub post_process_results-Refused :
      (found : List (SearchResult F)) (r : QueryRequest F D) (c : VectorCollection F D)
      (name : String) (index : LinearIndex F D) (rest : Dict String (LinearIndex F D))
      → c.indexes ≡ (name, index) ∷ rest
      → is_with_payload r.with_payload ≡ false
      → (index' : LinearIndex F D) × (((post_process_results found r c).1).indexes
          ≡ (name, index') ∷ rest)
        × ((x : SearchResult F) (key : List ℕ)
            → Memᴰ x ((post_process_results found r c).0)
            → x.vector ≡ some key
            → Refused key index')
  unfolding post_process_results in_first
  post_process_results-Refused found r c name index rest e p =
      let results = (post_process_results found r c).0 in
      (
        record index { vectors = erase_all results index.vectors },
        ground (arith, e, p),
        λ x key m q v k ks f s t.
            match_vector-none v k ks f (erase_all-mem key x results index.vectors m q v s) t,
      )
