-- ===== src/KvRaft/Refinement.antt =====
-- src/kvraft/: the service as one map from keys to values on which each new write acts once.
use Prim.Native.String.{String, ◌++◌}
use nexus_mind.Prelude.{
  ℕ, ◌≡◌, refl, ◌∙◌, ap, Bool, true, not, ◌&&◌, List, [], ◌∷◌, Option, none, some, arith, ltb, ◌==◌,
  if◌then◌else◌,
}
use nexus_mind.Prelude.Dict.{nat_eq, string_eq, lookup, lookup-insert}
use nexus_mind.KvRaft.Common.{
  Op, LastOperationInfo, op_get, op_put, op_append, is_get, ok, err_no_key,
}
use nexus_mind.KvRaft.MemoryKv
use nexus_mind.KvRaft.Server.{KvServer, request_duplicated, apply_op}
use nexus_mind.KvRaft.Once.{run_ops, lookup-apply_op}

-- The map of the specification, and the highest command of each client so far.
pub record Spec : Type 0 where
  pub store : String → Option String
  pub highest : ℕ → Option ℕ

abbrev pub text : Option String → String
text none = ""
text (some v) = v

-- What a write does to a map; a read does nothing.
abbrev pub write : Op → (String → Option String) → String → Option String
write op store key = elim op.op_type [
  | op_get ↦ store key
  | op_put ↦ if string_eq.beq op.key key then some op.value else store key
  | op_append ↦
      if string_eq.beq op.key key then some (text (store op.key) ++ op.value) else store key
]

abbrev pub is_fresh : Op → Spec → Bool
is_fresh op s =
    not (is_get op.op_type)
    && elim (s.highest op.client_id) [ none ↦ true | some h ↦ ltb h op.seq_id ]

abbrev pub spec_step : Op → Spec → Spec
spec_step op s = record {
  store = λ k. if is_fresh op s then write op s.store k else s.store k;
  highest = λ c. if is_fresh op s && op.client_id == c then some op.seq_id else s.highest c;
}

unfoldable pub spec_run : List Op → Spec → Spec
spec_run [] s = s
spec_run (op ∷ ops) s = spec_run ops (spec_step op s)

abbrev pub seq_of : Option LastOperationInfo → Option ℕ
seq_of none = none
seq_of (some info) = some info.seq_id

-- What the specification sees of a server.
abbrev pub view : KvServer → Spec
view kv = record {
  store = λ k. lookup k kv.state_machine;
  highest = λ c. seq_of (lookup c kv.duplicate_table);
}

view-apply_op-store :
    (op : Op) (kv : KvServer) (key : String)
    → lookup key (apply_op op kv).0.state_machine ≡ (spec_step op (view kv)).store key
unfolding apply_op MemoryKv.value_or_empty
view-apply_op-store op kv key = ground (
  arith,
  lookup-insert op.key key op.value kv.state_machine,
  lookup-insert op.key key (MemoryKv.value_or_empty (lookup op.key kv.state_machine) ++ op.value)
      kv.state_machine,
)

view-apply_op-highest :
    (op : Op) (kv : KvServer) (c : ℕ)
    → seq_of (lookup c (apply_op op kv).0.duplicate_table) ≡ (spec_step op (view kv)).highest c
unfolding request_duplicated
view-apply_op-highest op kv c = ground (arith, lookup-apply_op op kv c)

view-apply_op : (op : Op) (kv : KvServer) → view (apply_op op kv).0 ≡ spec_step op (view kv)
view-apply_op op kv = λ i. record {
  store = λ k. view-apply_op-store op kv k i;
  highest = λ c. view-apply_op-highest op kv c i;
}

-- A server that applies the commands of a log holds the map that the specification computes from
-- them, in which each client's write acts once, in the order of the log, and a write that is not
-- newer than one applied before does nothing.
pub view-run_ops : (ops : List Op) (kv : KvServer) → view (run_ops ops kv) ≡ spec_run ops (view kv)
unfolding run_ops spec_run
view-run_ops [] kv = refl
view-run_ops (op ∷ ops) kv =
    view-run_ops ops (apply_op op kv).0 ∙ ap (spec_run ops) (view-apply_op op kv)

-- A read at the end of a log gives the value of its key in the map that the specification computes,
-- or "" with the error for a missing key, and changes nothing.
pub get-run_ops :
    (ops : List Op) (op : Op) (kv : KvServer)
    → op.op_type ≡ op_get
    → let found = (spec_run ops (view kv)).store op.key in
      ((apply_op op (run_ops ops kv)).1.value ≡ text found)
      × ((apply_op op (run_ops ops kv)).1.err ≡ (elim found [ none ↦ err_no_key | some _ ↦ ok ]))
      × ((apply_op op (run_ops ops kv)).0 ≡ run_ops ops kv)
unfolding apply_op
get-run_ops ops op kv g =
    let seen : lookup op.key (run_ops ops kv).state_machine
        ≡ (spec_run ops (view kv)).store op.key =
      λ i. (view-run_ops ops kv i).store op.key in
    rw (← seen) (ground arith, ground arith, ground arith)
