-- ===== src/KvRaft/KvModel.antt =====
-- src/models/kv.go: the specification of one key that the linearizability checker is given.

use Prim.Native.String.{String, ◌++◌ as append_str, compare}
use text.Mathlib.Text.{◌==◌ as str_eq, is_lt}
use nexus_mind.Prelude.{ℕ, Bool, true, none, some, List, [], ◌∷◌, ◌++◌, map, if◌then◌else◌, ◌==◌}
use nexus_mind.Prelude.Slice.{sort_slice}
use nexus_mind.Prelude.Dict.{Dict, string_eq, lookup, insert}

-- `op` is 0 for a get, 1 for a put, and else an append.
pub record KvInput : Type 0 where
  pub op : ℕ
  pub key : String
  pub value : String

pub record KvOutput : Type 0 where
  pub value : String

-- What the model reads of the checker's record of an operation.
pub record Operation : Type 0 where
  pub input : KvInput
  pub output : KvOutput

unfoldable pub init : String
init = ""

unfoldable pub step : String → KvInput → KvOutput → Bool × String
step state inp out =
    if inp.op == 0
    then (str_eq out.value state, state)
    else if inp.op == 1
    then (true, inp.value)
    else (true, append_str state inp.value)

-- A missing entry reads as the nil slice.
unfoldable pub entry : String → Dict String (List Operation) → List Operation
entry key m = elim (lookup key m) [ none ↦ [] | some ops ↦ ops ]

unfoldable pub by_key : List Operation → Dict String (List Operation) → Dict String (List Operation)
unfolding entry
by_key [] m = m
by_key (v ∷ history) m = by_key history (insert v.input.key (entry v.input.key m ++ (v ∷ [])) m)

abbrev pub less_str : String → String → Bool
less_str s t = is_lt (compare s t)

-- `sort.Strings` of the keys.
unfoldable pub sorted_keys : Dict String (List Operation) → List String
sorted_keys m = sort_slice less_str (map (λ e. e.0) m)

unfoldable pub partition : List Operation → List (List Operation)
unfolding by_key sorted_keys entry
partition history = let m = by_key history [] in map (λ k. entry k m) (sorted_keys m)
