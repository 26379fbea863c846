-- ===== src/KvRaft/Once.antt =====
-- src/kvraft/server.go: a command takes effect once, however often it is in the log.
use nexus_mind.Prelude.{
  ℕ, ◌≤◌, ◌≡◌, refl, inl, inr, Bool, true, false, List, [], ◌∷◌, some, arith, Option-cases, ◌&&◌,
  not, ◌==◌, if◌then◌else◌,
}
use nexus_mind.Prelude.Dict.{nat_eq, lookup, lookup-insert}
use nexus_mind.KvRaft.Common.{Op, LastOperationInfo, is_get}
use nexus_mind.KvRaft.Server.{
  KvServer, SnapshotCodec, request_duplicated, apply_op, make_snapshot, restore_from_snapshot,
  apply_to_state_machine,
}

-- The commands of the log, one after the other.
unfoldable pub run_ops : List Op → KvServer → KvServer
run_ops [] kv = kv
run_ops (op ∷ ops) kv = run_ops ops (apply_op op kv).0

-- The client's command `seq`, or a later one, has been applied.
abbrev pub HasSeen : ℕ → ℕ → KvServer → Type 0
HasSeen client seq kv =
    (info : LastOperationInfo) × (lookup client kv.duplicate_table ≡ some info)
    × (seq ≤ info.seq_id)

-- A command that is neither a read nor a duplicate.
abbrev pub is_new : Op → KvServer → Bool
is_new op kv =
    not (is_get op.op_type) && not (request_duplicated kv.duplicate_table op.client_id op.seq_id)

-- Such a command is put down with its reply, and nothing else is.
pub lookup-apply_op :
    (op : Op) (kv : KvServer) (client : ℕ)
    → lookup client (apply_op op kv).0.duplicate_table ≡ (
        if is_new op kv && op.client_id == client
        then some (record { seq_id = op.seq_id; reply = (apply_op op kv).1 })
        else lookup client kv.duplicate_table)
unfolding apply_op
lookup-apply_op op kv client = ground (
  arith,
  lookup-insert op.client_id client
      (record { seq_id = op.seq_id; reply = (apply_to_state_machine op kv.state_machine).1 })
      kv.duplicate_table,
)

apply_op-HasSeen :
    (op : Op) (kv : KvServer) (client seq : ℕ)
    → HasSeen client seq kv
    → HasSeen client seq (apply_op op kv).0
unfolding request_duplicated
apply_op-HasSeen op kv client seq (info, p, l) =
    elim (Option-cases (lookup client (apply_op op kv).0.duplicate_table)) [
      | inl n ↦ absurd (ground (arith, lookup-apply_op op kv client))
      | inr (new, q) ↦ (new, q, ground (arith, lookup-apply_op op kv client))
    ]

run_ops-HasSeen :
    (ops : List Op) (kv : KvServer) (client seq : ℕ)
    → HasSeen client seq kv
    → HasSeen client seq (run_ops ops kv)
unfolding run_ops
run_ops-HasSeen [] kv client seq h = h
run_ops-HasSeen (op ∷ ops) kv client seq h =
    run_ops-HasSeen ops (apply_op op kv).0 client seq (apply_op-HasSeen op kv client seq h)

apply_op-seen_self :
    (op : Op) (kv : KvServer)
    → is_get op.op_type ≡ false
    → HasSeen op.client_id op.seq_id (apply_op op kv).0
unfolding request_duplicated
apply_op-seen_self op kv g =
    elim (Option-cases (lookup op.client_id (apply_op op kv).0.duplicate_table)) [
      | inl n ↦ absurd (ground (arith, lookup-apply_op op kv op.client_id))
      | inr (new, q) ↦ (new, q, ground (arith, lookup-apply_op op kv op.client_id))
    ]

seen-apply_op :
    (op : Op) (kv : KvServer)
    → is_get op.op_type ≡ false
    → HasSeen op.client_id op.seq_id kv
    → (apply_op op kv).0 ≡ kv
unfolding apply_op
seen-apply_op op kv g (info, p, l) = ground arith

-- Once a client's write is applied, the same one, and any earlier one of that client, leaves the
-- whole server as it is, whatever was applied in between.
pub retry_no_effect :
    (op again : Op) (ops : List Op) (kv : KvServer)
    → is_get op.op_type ≡ false
    → is_get again.op_type ≡ false
    → again.client_id ≡ op.client_id
    → again.seq_id ≤ op.seq_id
    → let later = run_ops ops (apply_op op kv).0 in (apply_op again later).0 ≡ later
retry_no_effect op again ops kv g g' same le =
    let later = run_ops ops (apply_op op kv).0 in
    let (info, p, l) =
      run_ops-HasSeen ops (apply_op op kv).0 op.client_id op.seq_id (apply_op-seen_self op kv g) in
    seen-apply_op again later g' (info, rw same p, omega arith)

-- A new write that comes a second time at once is answered as it was the first time.
pub retry_same_reply :
    (op : Op) (kv : KvServer)
    → is_get op.op_type ≡ false
    → is_new op kv ≡ true
    → (apply_op op (apply_op op kv).0).1 ≡ (apply_op op kv).1
unfolding apply_op
retry_same_reply op kv g n = ground (arith, lookup-apply_op op kv op.client_id)

module _ {B : Type 0} (codec : SnapshotCodec B) where
  restored :
      (kv kv' : KvServer)
      → restore_from_snapshot codec (make_snapshot codec kv) kv'
        ≡ some
            (record kv' { state_machine = kv.state_machine; duplicate_table = kv.duplicate_table })
  unfolding restore_from_snapshot make_snapshot
  restored kv kv' = ground (
    arith,
    codec.decode-encode kv.state_machine kv.duplicate_table,
    codec.encode_pos kv.state_machine kv.duplicate_table,
  )

-- The two parts of a server that commands read and write.
abbrev SameState : KvServer → KvServer → Type 0
SameState a b = (a.state_machine ≡ b.state_machine) × (a.duplicate_table ≡ b.duplicate_table)

apply_op-SameState :
    (op : Op) (a b : KvServer)
    → SameState a b
    → SameState (apply_op op a).0 (apply_op op b).0 × ((apply_op op a).1 ≡ (apply_op op b).1)
unfolding apply_op
apply_op-SameState op a b (m, t) = ground arith

run_ops-SameState :
    (ops : List Op) (a b : KvServer) → SameState a b → SameState (run_ops ops a) (run_ops ops b)
unfolding run_ops
run_ops-SameState [] a b s = s
run_ops-SameState (op ∷ ops) a b s =
    run_ops-SameState ops (apply_op op a).0 (apply_op op b).0 (apply_op-SameState op a b s).0

module _ {B : Type 0} (codec : SnapshotCodec B) where
  -- A server restored from another's snapshot holds what the other held, and after the same further
  -- commands it still does, the reply to the next one included.
  pub snapshot_continues :
      (kv kv' : KvServer) (ops : List Op) (op : Op)
      → (r : KvServer) × (restore_from_snapshot codec (make_snapshot codec kv) kv' ≡ some r)
        × ((run_ops ops r).state_machine ≡ (run_ops ops kv).state_machine)
        × ((run_ops ops r).duplicate_table ≡ (run_ops ops kv).duplicate_table)
        × ((apply_op op (run_ops ops r)).1 ≡ (apply_op op (run_ops ops kv)).1)
        × (r.last_applied ≡ kv'.last_applied)
  snapshot_continues kv kv' ops op =
      let r = record kv' {
        state_machine = kv.state_machine;
        duplicate_table = kv.duplicate_table;
      } in
      let (m, t) = run_ops-SameState ops r kv (refl, refl) in
      (
        r,
        restored codec kv kv',
        m,
        t,
        (apply_op-SameState op (run_ops ops r) (run_ops ops kv) (m, t)).1,
        refl,
      )
