-- ===== src/KvRaft/Server.antt =====
-- src/kvraft/server.go: the service beside its consensus peer. The two have locks of their own, so
-- what the service reads from the peer is an argument; `none` is a panic, or a send that blocks.
use Prim.Native.String.{String}
use nexus_mind.Prelude.{
  ℕ, ◌≡◌, ◌<◌, Bool, true, false, not, ◌&&◌, Option, none, some, [], leb, ◌==◌, if◌then◌else◌,
  ◌>>=◌,
}
use nexus_mind.Prelude.Int.{ℤ, pos, negsuc, minus_one, ◌==ℤ◌}
use nexus_mind.Prelude.Dict.{Dict, nat_eq, string_eq, lookup, insert, erase}
use nexus_mind.Raft.Application.{ApplyMsg, command_msg, snapshot_msg}
use nexus_mind.KvRaft.MemoryKv
use nexus_mind.KvRaft.Common.{
  Err, no_err, err_wrong_leader, err_timeout, op_get, op_put, op_append, is_get, get_operation_type,
  PutAppendArgs, Op, OpReply, LastOperationInfo,
}

-- A notify channel buffers one reply.
pub record KvServer : Type 0 where
  pub dead : Bool
  pub maxraftstate : ℤ
  pub last_applied : ℕ
  pub state_machine : Dict String String
  pub notify_chans : Dict ℕ (Option OpReply)
  pub duplicate_table : Dict ℕ LastOperationInfo

-- The peer is killed too, by its own operation.
unfoldable pub kill : KvServer → KvServer
kill kv = record kv { dead = true }

unfoldable pub killed : KvServer → Bool
killed kv = kv.dead

-- The encoding of a snapshot, which labgob takes from the standard library.
pub record SnapshotCodec (B : Type 0) : Type 0 where
  pub len : B → ℕ
  pub encode : Dict String String → Dict ℕ LastOperationInfo → B
  pub decode : B → Option (Dict String String × Dict ℕ LastOperationInfo)
  pub decode-encode :
      (m : Dict String String) (t : Dict ℕ LastOperationInfo) → decode (encode m t) ≡ some (m, t)
  pub encode_pos : (m : Dict String String) (t : Dict ℕ LastOperationInfo) → 0 < len (encode m t)

unfoldable pub request_duplicated : Dict ℕ LastOperationInfo → ℕ → ℕ → Bool
request_duplicated table client seq = elim (lookup client table) [
  | none ↦ false
  | some info ↦ leb seq info.seq_id
]

-- Read only where the request is a duplicate, so that there is an entry.
unfoldable pub stored_reply : Dict ℕ LastOperationInfo → ℕ → OpReply
stored_reply table client = elim (lookup client table) [
  | none ↦ record { value = ""; err = no_err }
  | some info ↦ info.reply
]

unfoldable pub apply_to_state_machine : Op → Dict String String → Dict String String × OpReply
unfolding MemoryKv.get MemoryKv.put MemoryKv.append
apply_to_state_machine op kv = elim op.op_type [
  | op_get ↦ let (v, e) = MemoryKv.get op.key kv in (kv, record { value = v; err = e })
  | op_put ↦ let (kv', e) = MemoryKv.put op.key op.value kv in (kv', record { value = ""; err = e })
  | op_append ↦
      let (kv', e) = MemoryKv.append op.key op.value kv in (kv', record { value = ""; err = e })
]

-- The part of `applyTask` between the index check and the notification.
unfoldable pub apply_op : Op → KvServer → KvServer × OpReply
unfolding is_get request_duplicated stored_reply apply_to_state_machine
apply_op op kv =
    if not (is_get op.op_type) && request_duplicated kv.duplicate_table op.client_id op.seq_id
    then (kv, stored_reply kv.duplicate_table op.client_id)
    else (let (machine, reply) = apply_to_state_machine op kv.state_machine in
        (
          record kv {
            state_machine = machine;
            duplicate_table =
                if is_get op.op_type
                then kv.duplicate_table
                else insert op.client_id (record { seq_id = op.seq_id; reply = reply })
                    kv.duplicate_table;
          },
          reply,
        ))

-- The channel is made where there is none.
unfoldable pub get_notify_channel : ℕ → KvServer → KvServer × Option OpReply
get_notify_channel index kv = elim (lookup index kv.notify_chans) [
  | none ↦ (record kv { notify_chans = insert index none kv.notify_chans }, none)
  | some ch ↦ (kv, ch)
]

unfoldable pub remove_notify_channel : ℕ → KvServer → KvServer
remove_notify_channel index kv = record kv { notify_chans = erase index kv.notify_chans }

-- `notifyCh <- opReply`: a full channel blocks.
unfoldable pub notify : ℕ → OpReply → KvServer → Option KvServer
unfolding get_notify_channel
notify index reply kv =
    let (kv', ch) = get_notify_channel index kv in
    elim ch [
      | none ↦ some (record kv' { notify_chans = insert index (some reply) kv'.notify_chans })
      | some _ ↦ none
    ]

-- `size >= maxraftstate`.
unfoldable pub reaches : ℕ → ℤ → Bool
reaches size (pos m) = leb m size
reaches size (negsuc m) = true

module _ {B : Type 0} (codec : SnapshotCodec B) where
  unfoldable pub make_snapshot : KvServer → B
  make_snapshot kv = codec.encode kv.state_machine kv.duplicate_table

  -- Empty bytes leave the server as it is; bytes that do not decode panic.
  unfoldable pub restore_from_snapshot : B → KvServer → Option KvServer
  restore_from_snapshot bytes kv =
      if codec.len bytes == 0
      then some kv
      else (codec.decode bytes >>= λ d.
          some (record kv { state_machine = d.0; duplicate_table = d.1 }))

  -- A new server over what the persister's snapshot holds.
  unfoldable pub start_kv_server : ℤ → B → Option KvServer
  unfolding restore_from_snapshot
  start_kv_server maxraftstate bytes = restore_from_snapshot bytes (record {
    dead = false;
    maxraftstate = maxraftstate;
    last_applied = 0;
    state_machine = [];
    notify_chans = [];
    duplicate_table = [];
  })

  -- The call `Snapshot(index, bytes)`, if the peer's state has grown to the limit.
  unfoldable pub snapshot_call : ℕ → ℕ → KvServer → Option (ℕ × B)
  unfolding reaches make_snapshot
  snapshot_call size index kv =
      if not (kv.maxraftstate ==ℤ minus_one) && reaches size kv.maxraftstate
      then some (index, make_snapshot kv)
      else none

  -- One command that the peer has committed: whether the peer leads and how large its state is are
  -- read after it is applied. The second result is the call
  -- `Snapshot(index, bytes)`, if it is made.
  unfoldable pub apply_command : Bool → ℕ → ℕ → Op → KvServer → Option (KvServer × Option (ℕ × B))
  unfolding apply_op notify snapshot_call
  apply_command leads size index op kv =
      if leb index kv.last_applied
      then some (kv, none)
      else (let (kv', reply) = apply_op op (record kv { last_applied = index }) in
          (if leads then notify index reply kv' else some kv') >>= λ kv''.
          some (kv'', snapshot_call size index kv''))

  -- One round of `applyTask`.
  unfoldable pub apply_message :
      Bool → ℕ → ApplyMsg Op B → KvServer → Option (KvServer × Option (ℕ × B))
  unfolding apply_command restore_from_snapshot
  apply_message leads size (command_msg false command index) kv = some (kv, none)
  apply_message leads size (command_msg true none index) kv =
      if leb index kv.last_applied then some (kv, none) else none
  apply_message leads size (command_msg true (some op) index) kv =
      apply_command leads size index op kv
  apply_message leads size (snapshot_msg bytes term index) kv =
      restore_from_snapshot bytes kv >>= λ kv'. some (record kv' { last_applied = index }, none)

-- What a handler does before it starts agreement: it answers at once, or hands a command over.
pub data Submit : Type 0 where
  answer : Err → Submit
  submit : Op → Submit

unfoldable pub put_append_submit : PutAppendArgs → KvServer → Option Submit
unfolding request_duplicated stored_reply get_operation_type
put_append_submit args kv =
    if request_duplicated kv.duplicate_table args.client_id args.seq_id
    then some (answer (stored_reply kv.duplicate_table args.client_id).err)
    else (get_operation_type args.op >>= λ t. some (
        submit (record {
          key = args.key;
          value = args.value;
          op_type = t;
          client_id = args.client_id;
          seq_id = args.seq_id;
        })))

-- `Get` hands its command over at once.
unfoldable pub get_submit : String → Submit
get_submit key =
    submit (record { key = key; value = ""; op_type = op_get; client_id = 0; seq_id = 0 })

-- The answer of `Start`, and the channel to wait on.
unfoldable pub await_result : Bool → ℕ → KvServer → KvServer × Option OpReply
unfolding get_notify_channel
await_result leads index kv =
    if leads
    then ((get_notify_channel index kv).0, none)
    else (kv, some (record { value = ""; err = err_wrong_leader }))

-- The `select` when it ends: a buffered reply is taken out, or the time is over. The channel is
-- removed by a goroutine of its own, later.
unfoldable pub receive : ℕ → KvServer → KvServer × OpReply
receive index kv = elim (lookup index kv.notify_chans) [
  | some (some reply) ↦ (record kv { notify_chans = insert index none kv.notify_chans }, reply)
  | _ ↦ (kv, record { value = ""; err = err_timeout })
]
