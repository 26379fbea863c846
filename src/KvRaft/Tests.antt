-- ===== src/KvRaft/Tests.antt =====
-- src/kvraft/: the theorems at small logs of commands.
use Prim.Native.String.{String}
use nexus_mind.Prelude.{
  ℕ, ◌≡◌, ◌<◌, ◌≤◌, ◌>>=◌, Bool, refl, true, false, Option, none, some, List, [], ◌∷◌, arith,
}
use nexus_mind.Prelude.Int.{minus_one}
use nexus_mind.Prelude.Dict.{Dict, nat_eq, lookup, insert}
use nexus_mind.KvRaft.Common.{
  Op, OpReply, OperationType, op_get, op_put, op_append, is_get, ok, err_no_key, err_wrong_leader,
  LastOperationInfo,
}
use nexus_mind.KvRaft.Server.{
  KvServer, SnapshotCodec, apply_op, apply_command, start_kv_server, make_snapshot,
  restore_from_snapshot, apply_message,
}
use nexus_mind.Raft.Application.{snapshot_msg}
use nexus_mind.KvRaft.Client.{Clerk}
use nexus_mind.KvRaft.Once.{run_ops, retry_no_effect, snapshot_continues}
use nexus_mind.KvRaft.Refinement.{spec_run, view, text, view-run_ops, get-run_ops}
use nexus_mind.KvRaft.Notify.{ServerSteps, applies, here, next, apply_command_total}
use mathlib.Core.List.{Memᴰ}
use nexus_mind.Prelude.Slice.{All}
use nexus_mind.KvRaft.KvModel.{Operation, init, partition}
use nexus_mind.KvRaft.Linear.{run, accepts, with_key, partition-run}

abbrev empty : KvServer
empty = record {
  dead = false;
  maxraftstate = minus_one;
  last_applied = 0;
  state_machine = [];
  notify_chans = [];
  duplicate_table = [];
}

abbrev op : OperationType → String → String → ℕ → ℕ → Op
op t key value client seq = record {
  key = key;
  value = value;
  op_type = t;
  client_id = client;
  seq_id = seq;
}

abbrev put_x : Op
put_x = op op_put "x" "1" 5 0

abbrev append_x : Op
append_x = op op_append "x" "2" 6 0

abbrev get_x : Op
get_x = op op_get "x" "" 0 0

-- A retried append acts once.
appended_once : (apply_op get_x (run_ops (put_x ∷ append_x ∷ append_x ∷ []) empty)).1.value ≡ "12"
unfolding apply_op run_ops lookup insert
appended_once = refl

retry_no_effect_example :
    (apply_op put_x (run_ops (append_x ∷ []) (apply_op put_x empty).0)).0
    ≡ run_ops (append_x ∷ []) (apply_op put_x empty).0
unfolding is_get
retry_no_effect_example =
    retry_no_effect put_x put_x (append_x ∷ []) empty refl refl refl (omega arith)

view-run_ops_example :
    view (run_ops (put_x ∷ append_x ∷ append_x ∷ []) empty)
    ≡ spec_run (put_x ∷ append_x ∷ append_x ∷ []) (view empty)
view-run_ops_example = view-run_ops (put_x ∷ append_x ∷ append_x ∷ []) empty

get-run_ops_example :
    let found = (spec_run (put_x ∷ append_x ∷ []) (view empty)).store "x" in
    ((apply_op get_x (run_ops (put_x ∷ append_x ∷ []) empty)).1.value ≡ text found)
    × ((apply_op get_x (run_ops (put_x ∷ append_x ∷ []) empty)).1.err
        ≡ (elim found [ none ↦ err_no_key | some _ ↦ ok ]))
    × ((apply_op get_x (run_ops (put_x ∷ append_x ∷ []) empty)).0
        ≡ run_ops (put_x ∷ append_x ∷ []) empty)
get-run_ops_example = get-run_ops (put_x ∷ append_x ∷ []) get_x empty refl

abbrev Bytes : Type 0
Bytes = Option (Dict String String × Dict ℕ LastOperationInfo)

-- A codec that keeps the two tables as they are; `none` stands for no bytes.
abbrev plain : SnapshotCodec Bytes
plain = record {
  len = λ b. elim b [ none ↦ 0 | some _ ↦ 1 ];
  encode = λ m t. some (m, t);
  decode = λ b. b;
  decode-encode = λ m t. refl;
  encode_pos = λ m t. omega arith;
}

snapshot_continues_example :
    (r : KvServer) × (restore_from_snapshot plain
        (make_snapshot plain (apply_op put_x empty).0)
        empty
      ≡ some r)
    × ((run_ops (append_x ∷ []) r).state_machine
        ≡ (run_ops (append_x ∷ []) (apply_op put_x empty).0).state_machine)
    × ((run_ops (append_x ∷ []) r).duplicate_table
        ≡ (run_ops (append_x ∷ []) (apply_op put_x empty).0).duplicate_table)
    × ((apply_op get_x (run_ops (append_x ∷ []) r)).1
        ≡ (apply_op get_x (run_ops (append_x ∷ []) (apply_op put_x empty).0)).1)
    × (r.last_applied ≡ 0)
snapshot_continues_example =
    snapshot_continues plain (apply_op put_x empty).0 empty (append_x ∷ []) get_x

abbrev applied : KvServer × Option (ℕ × Bytes)
applied = elim (apply_command plain true 0 1 put_x empty) [ none ↦ (empty, none) | some p ↦ p ]

-- Nobody took the reply at index 1.
abbrev untaken : ServerSteps plain empty (applied.0)
unfolding apply_command insert lookup
untaken = next here (applies true 0 1 put_x (applied.1) refl)

apply_command_total_example :
    ((leads : Bool)
      → (p : KvServer × Option (ℕ × Bytes)) × (apply_command plain leads 0 1 put_x (applied.0)
          ≡ some p))
    × ((leads : Bool) (old term : ℕ) (snapshot : Bytes) (out : Option (ℕ × Bytes)) (back : KvServer)
          (r : OpReply)
        → apply_message plain leads 0 (snapshot_msg snapshot term old) (applied.0)
          ≡ some (back, out)
        → old < 1
        → lookup 1 (applied.0).notify_chans ≡ some (some r)
        → (1 ≤ (applied.0).last_applied) × (apply_command plain true 0 1 put_x back ≡ none))
unfolding start_kv_server untaken
apply_command_total_example =
    apply_command_total plain minus_one none 0 1 put_x {kv = empty} refl untaken (tt, tt)

-- The snapshot of the start is handed over after the command at 1, which then blocks.
restored_blocks :
    (apply_message plain true 0 (snapshot_msg (some ([], [])) 0 0) (applied.0) >>= λ p.
    apply_command plain true 0 1 put_x (p.0))
    ≡ none
unfolding apply_message apply_command insert lookup restore_from_snapshot
restored_blocks = refl

abbrev answers : List (Option OpReply)
answers = none ∷ some (record { value = ""; err = err_wrong_leader }) ∷ []

abbrev done : OpReply
done = record { value = "1"; err = ok }

abbrev clerk : Clerk
clerk = record { servers = 3; leader_id = 2; client_id = 5; seq_id = 4 }

partition-run_example :
    All (λ h. accepts init h ≡ true) (partition (run (put_x ∷ append_x ∷ get_x ∷ []) []))
    × ((v : Operation)
        → Memᴰ v (run (put_x ∷ append_x ∷ get_x ∷ []) [])
        → Memᴰ
            (with_key v.input.key (run (put_x ∷ append_x ∷ get_x ∷ []) []))
            (partition (run (put_x ∷ append_x ∷ get_x ∷ []) [])))
partition-run_example = partition-run (put_x ∷ append_x ∷ get_x ∷ [])
