-- ===== src/ShardKv/Server.antt =====
-- src/shardkv/server.go: the service of one replica group. What it reads from its consensus peer is
-- an argument; `none` is a panic, a nil shard included.
use Prim.Native.String.{String}
use nexus_mind.Prelude.{
  ℕ, zero, suc, ◌<◌, ◌≡◌, Bool, true, false, not, ◌&&◌, Option, none, some, [], leb, ◌==◌,
  if◌then◌else◌, ◌>>=◌, get_elem?,
}
use nexus_mind.Prelude.Int.{ℤ, ◌==ℤ◌}
use nexus_mind.Prelude.Dict.{Dict, nat_eq, lookup, insert, erase}
use nexus_mind.ShardCtrler.Common.{n_shards, Config, default_config}
use nexus_mind.ShardKv.Common.{
  Err, no_err, err_wrong_group, err_wrong_leader, err_timeout, op_get, op_put, op_append,
  get_operation_type, PutAppendArgs, Op, OpReply, LastOperationInfo, ShardStatus, normal, move_in,
  move_out, gc, RaftCommand, client_operation, key2shard,
}
use nexus_mind.ShardKv.Shards
use nexus_mind.ShardKv.Shards.{Shard, new_shard}

-- A notify channel buffers one reply.
pub record ShardKv : Type 0 where
  pub gid : ℤ
  pub maxraftstate : ℤ
  pub dead : Bool
  pub last_applied : ℕ
  pub shards : Dict ℕ Shard
  pub notify_chans : Dict ℕ (Option OpReply)
  pub duplicate_table : Dict ℕ LastOperationInfo
  pub current_config : Config
  pub prev_config : Config

-- The peer is killed too, by its own operation.
unfoldable pub kill : ShardKv → ShardKv
kill kv = record kv { dead = true }

unfoldable pub killed : ShardKv → Bool
killed kv = kv.dead

-- The encoding of a snapshot, which labgob takes from the standard library.
pub record SnapshotCodec (B : Type 0) : Type 0 where
  pub len : B → ℕ
  pub encode : Dict ℕ Shard → Dict ℕ LastOperationInfo → Config → Config → B
  pub decode : B → Option (Dict ℕ Shard × Dict ℕ LastOperationInfo × Config × Config)
  pub decode-encode :
      (s : Dict ℕ Shard) (t : Dict ℕ LastOperationInfo) (c p : Config)
      → decode (encode s t c p) ≡ some (s, t, c, p)
  pub encode_pos :
      (s : Dict ℕ Shard) (t : Dict ℕ LastOperationInfo) (c p : Config) → 0 < len (encode s t c p)

-- `Normal || GC`.
unfoldable pub is_serving : ShardStatus → Bool
is_serving normal = true
is_serving move_in = false
is_serving move_out = false
is_serving gc = true

unfoldable pub match_group : String → ShardKv → Option Bool
unfolding is_serving key2shard
match_group key kv = do
  s ← lookup (key2shard key) kv.shards
  g ← get_elem? kv.current_config.shards (key2shard key)
  some ((g ==ℤ kv.gid) && is_serving s.status)

unfoldable pub request_duplicated : Dict ℕ LastOperationInfo → ℕ → ℕ → Bool
request_duplicated table client seq = elim (lookup client table) [
  | none ↦ false
  | some info ↦ leb seq info.seq_id
]

-- Read only where the request is a duplicate, so that there is an entry.
unfoldable pub stored_reply : Dict ℕ LastOperationInfo → ℕ → OpReply
stored_reply table client = elim (lookup client table) [
  | none ↦ record { value = ""; err = no_err }
  | some info ↦ info.reply
]

unfoldable pub apply_to_shard : Op → Shard → Shard × OpReply
unfolding Shards.get Shards.put Shards.append
apply_to_shard op s = elim op.op_type [
  | op_get ↦ let (v, e) = Shards.get op.key s in (s, record { value = v; err = e })
  | op_put ↦ let (s', e) = Shards.put op.key op.value s in (s', record { value = ""; err = e })
  | op_append ↦
      let (s', e) = Shards.append op.key op.value s in (s', record { value = ""; err = e })
]

unfoldable pub apply_to_state_machine : Op → ℕ → ShardKv → Option (ShardKv × OpReply)
unfolding apply_to_shard
apply_to_state_machine op shard_id kv = lookup shard_id kv.shards >>= λ s.
    (let (s', reply) = apply_to_shard op s in
      some (record kv { shards = insert shard_id s' kv.shards }, reply))

-- The channel is made where there is none.
unfoldable pub get_notify_channel : ℕ → ShardKv → ShardKv × Option OpReply
get_notify_channel index kv = elim (lookup index kv.notify_chans) [
  | none ↦ (record kv { notify_chans = insert index none kv.notify_chans }, none)
  | some ch ↦ (kv, ch)
]

unfoldable pub remove_notify_channel : ℕ → ShardKv → ShardKv
remove_notify_channel index kv = record kv { notify_chans = erase index kv.notify_chans }

-- The shards `i`, `i + 1`, … of `n` that are not there yet.
unfoldable pub no_shards : ℕ → ℕ → Dict ℕ Shard → Dict ℕ Shard
unfolding new_shard
no_shards zero i shards = shards
no_shards (suc n) i shards =
    no_shards n (suc i)
      (elim (lookup i shards) [ none ↦ insert i new_shard shards | some _ ↦ shards ])

module _ {B : Type 0} (codec : SnapshotCodec B) where
  unfoldable pub make_snapshot : ShardKv → B
  make_snapshot kv = codec.encode kv.shards kv.duplicate_table kv.current_config kv.prev_config

  -- Empty bytes fill up the shards; bytes that do not decode panic.
  unfoldable pub restore_from_snapshot : B → ShardKv → Option ShardKv
  unfolding no_shards
  restore_from_snapshot bytes kv =
      if codec.len bytes == 0
      then some (record kv { shards = no_shards n_shards 0 kv.shards })
      else (codec.decode bytes >>= λ d. some (record kv {
        shards = d.0;
        duplicate_table = d.1;
        current_config = d.2;
        prev_config = d.3;
      }))

  -- A new server over what the persister's snapshot holds.
  unfoldable pub start_server : ℤ → ℤ → B → Option ShardKv
  unfolding restore_from_snapshot default_config
  start_server gid maxraftstate bytes = restore_from_snapshot bytes (record {
    gid = gid;
    maxraftstate = maxraftstate;
    dead = false;
    last_applied = 0;
    shards = [];
    notify_chans = [];
    duplicate_table = [];
    current_config = default_config;
    prev_config = default_config;
  })

-- What a handler does before it starts agreement: it answers at once, or hands a command over.
pub data Submit : Type 0 where
  answer : Err → Submit
  submit : RaftCommand → Submit

unfoldable pub get_submit : String → ShardKv → Option Submit
unfolding match_group
get_submit key kv = match_group key kv >>= λ mine. some (
    if mine
    then submit (
        client_operation
          (record { key = key; value = ""; op_type = op_get; client_id = 0; seq_id = 0 }))
    else answer err_wrong_group)

unfoldable pub put_append_submit : PutAppendArgs → ShardKv → Option Submit
unfolding match_group request_duplicated stored_reply get_operation_type
put_append_submit args kv = match_group args.key kv >>= λ mine.
    if not mine
    then some (answer err_wrong_group)
    else if request_duplicated kv.duplicate_table args.client_id args.seq_id
    then some (answer (stored_reply kv.duplicate_table args.client_id).err)
    else (get_operation_type args.op >>= λ t. some (
        submit (
          client_operation (record {
            key = args.key;
            value = args.value;
            op_type = t;
            client_id = args.client_id;
            seq_id = args.seq_id;
          }))))

-- The answer of `Start`, and the channel to wait on.
unfoldable pub await_result : Bool → ℕ → ShardKv → ShardKv × Option OpReply
unfolding get_notify_channel
await_result leads index kv =
    if leads
    then ((get_notify_channel index kv).0, none)
    else (kv, some (record { value = ""; err = err_wrong_leader }))

-- The `select` when it ends: a buffered reply is taken out, or the time is over.
unfoldable pub receive : ℕ → ShardKv → ShardKv × OpReply
receive index kv = elim (lookup index kv.notify_chans) [
  | some (some reply) ↦ (record kv { notify_chans = insert index none kv.notify_chans }, reply)
  | _ ↦ (kv, record { value = ""; err = err_timeout })
]
