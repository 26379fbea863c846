-- ===== src/Vector/Api.antt =====
-- src/vector/query/api.go: the state of the HTTP interface, its requests and its answers. A decoded
-- body is part of the request, `none` where it does not decode; of the answer, the status and the
-- body are kept, not the texts of errors.
pub mod Resources
pub mod Queries
use nexus_mind.Prelude.{
  ℕ, ◌+◌, Bool, false, ◌||◌, Option, none, some, List, [], ◌∷◌, map, if◌then◌else◌, ◌==◌,
}
use nexus_mind.Prelude.Int.{ℤ, pos, negsuc, leb_ℤ}
use nexus_mind.Prelude.Dict.{Dict, nat_eq, bytes_eq, lookup, insert, erase}
use text.Mathlib.Text.{◌==◌ as str_eq}
use Prim.Native.Char.{code}
use Prim.Native.String.{String}
use nexus_mind.Vector.Numbers.{Float32, Float64}
use nexus_mind.Vector.Distance.{DistanceMetric, cosine, dot, euclidean, manhattan}
use nexus_mind.Vector.LinearIndex.{Error, Result, ok, err, SearchResult}
use nexus_mind.Vector.Collection.{VectorCollection, new_vector_collection, collection_size}
use nexus_mind.Vector.Processor.{QueryRequest, process_query}
use nexus_mind.Vector.Paths.{
  has_prefix, trim_prefix, split_slashes, split_first, trim_slashes, atoi, to_lower,
}

-- The collections that were made stand in `store`; the two maps hold pointers to them, a processor
-- being its collection's.
pub record Api (F D : Type 0) : Type 0 where
  pub store : ℕ → Option (VectorCollection F D)
  pub next : ℕ
  pub collections : Dict (List ℕ) ℕ
  pub processors : Dict (List ℕ) ℕ

pub data Method : Type 0 where
  get post put delete other_method : Method

pub record CreateRequest : Type 0 where
  pub name : List ℕ
  pub dimension : ℤ
  pub metric : List ℕ

-- `limit` and `offset` are the parameters of the URL, empty where they are missing.
pub record Request (F D : Type 0) : Type 0 where
  pub method : Method
  pub path : List ℕ
  pub limit : List ℕ
  pub offset : List ℕ
  pub create : Option CreateRequest
  pub query : Option (QueryRequest F D)
  pub searches : Option (List (QueryRequest F D))

pub record Info : Type 0 where
  pub name : List ℕ
  pub dimension : ℕ
  pub metric : DistanceMetric
  pub vectors : ℕ

pub data Body (F : Type 0) : Type 0 where
  message : Body F
  collection_list : List Info → Body F
  collection_info : Info → Body F
  results : List (List (SearchResult F)) → Body F

pub record Response (F : Type 0) : Type 0 where
  pub status : ℕ
  pub body : Body F

module _ {F : Type 0} where
  abbrev pub failed : ℕ → Response F
  failed status = record { status = status; body = message }

-- The bytes of an ASCII text.
abbrev pub bytes_of : String → List ℕ
bytes_of String.[] = []
bytes_of (String.◌∷◌ c s) = code c ∷ bytes_of s

-- The names are "cosine" and these; any other is for the cosine.
unfoldable pub parse_metric : List ℕ → DistanceMetric
unfolding to_lower
parse_metric s =
    let named = λ (t : String). bytes_eq.beq (to_lower s) (bytes_of t) in
    if named "dotproduct" || named "dot_product" || named "dot"
    then dot
    else if named "euclidean" || named "euclid" || named "l2"
    then euclidean
    else if named "manhattan" || named "taxicab" || named "cityblock" || named "l1"
    then manhattan
    else cosine

-- A single part of a path.
abbrev pub only_part : List (List ℕ) → Option (List ℕ)
only_part [] = none
only_part (p ∷ []) = some p
only_part (p ∷ q ∷ ps) = none

abbrev pub is_part : Option (List ℕ) → String → Bool
is_part none t = false
is_part (some p) t = bytes_eq.beq p (bytes_of t)
