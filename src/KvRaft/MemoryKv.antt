-- ===== src/KvRaft/MemoryKv.antt =====
-- src/kvraft/state_machine.go: the map that the operations act on.
use Prim.Native.String.{String, ◌++◌}
use nexus_mind.Prelude.{Option, none, some}
use nexus_mind.Prelude.Dict.{Dict, string_eq, lookup, insert}
use nexus_mind.KvRaft.Common.{Err, ok, err_no_key}

-- A missing key reads as "".
unfoldable pub value_or_empty : Option String → String
value_or_empty none = ""
value_or_empty (some v) = v

unfoldable pub get : String → Dict String String → String × Err
get key kv = elim (lookup key kv) [ none ↦ ("", err_no_key) | some v ↦ (v, ok) ]

unfoldable pub put : String → String → Dict String String → Dict String String × Err
put key value kv = (insert key value kv, ok)

unfoldable pub append : String → String → Dict String String → Dict String String × Err
unfolding value_or_empty
append key value kv = (insert key (value_or_empty (lookup key kv) ++ value) kv, ok)
