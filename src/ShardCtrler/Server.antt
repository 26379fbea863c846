-- ===== src/ShardCtrler/Server.antt =====
-- src/shardctrler/server.go: the service beside its consensus peer. What it reads from the peer is
-- an argument; `none` is a panic, or a send that blocks.
use Prim.Native.String.{String}
use nexus_mind.Prelude.{
  ℕ, Bool, true, false, not, ◌&&◌, Option, none, some, List, [], leb, if◌then◌else◌, ◌>>=◌,
  replicate,
}
use nexus_mind.Prelude.Int.{ℤ, pos}
use nexus_mind.Prelude.Dict.{Dict, nat_eq, lookup, insert, erase}
use nexus_mind.ShardCtrler.Common.{
  n_shards, Config, no_err, ok, err_wrong_leader, err_timeout, OperationType, op_join, op_leave,
  op_move, op_query, Op, OpReply, LastOperationInfo,
}
use nexus_mind.ShardCtrler.StateMachine.{new_ctrler_state_machine, query, join, leave, move}

-- A notify channel buffers one reply.
pub record ShardCtrler : Type 0 where
  pub dead : Bool
  pub last_applied : ℕ
  pub state_machine : List Config
  pub notify_chans : Dict ℕ (Option OpReply)
  pub duplicate_table : Dict ℕ LastOperationInfo

unfoldable pub start_server : ShardCtrler
unfolding new_ctrler_state_machine
start_server = record {
  dead = false;
  last_applied = 0;
  state_machine = new_ctrler_state_machine;
  notify_chans = [];
  duplicate_table = [];
}

-- The peer is killed too, by its own operation.
unfoldable pub kill : ShardCtrler → ShardCtrler
kill sc = record sc { dead = true }

unfoldable pub killed : ShardCtrler → Bool
killed sc = sc.dead

-- A configuration that nothing was put in.
abbrev pub no_config : Config
no_config = record { num = 0; shards = replicate n_shards (pos 0); groups = [] }

unfoldable pub is_query : OperationType → Bool
is_query op_query = true
is_query _ = false

unfoldable pub request_duplicated : Dict ℕ LastOperationInfo → ℕ → ℕ → Bool
request_duplicated table client seq = elim (lookup client table) [
  | none ↦ false
  | some info ↦ leb seq info.seq_id
]

-- Read only where the request is a duplicate, so that there is an entry.
unfoldable pub stored_reply : Dict ℕ LastOperationInfo → ℕ → OpReply
stored_reply table client = elim (lookup client table) [
  | none ↦ record { controller_config = no_config; err = no_err }
  | some info ↦ info.reply
]

-- Only a query's reply has a configuration.
unfoldable pub changed : List Config → List Config × OpReply
changed configs = (configs, record { controller_config = no_config; err = ok })

unfoldable pub apply_to_state_machine : Op → List Config → Option (List Config × OpReply)
unfolding query join leave move changed
apply_to_state_machine op configs = elim op.op_type [
  | op_query ↦
      (query op.num configs >>= λ c. some (configs, record { controller_config = c; err = ok }))
  | op_join ↦ (join op.servers configs >>= λ cs. some (changed cs))
  | op_leave ↦ (leave op.gids configs >>= λ cs. some (changed cs))
  | op_move ↦ (move op.shard op.gid configs >>= λ cs. some (changed cs))
]

-- The part of `applyTask` between the index check and the notification.
unfoldable pub apply_op : Op → ShardCtrler → Option (ShardCtrler × OpReply)
unfolding is_query request_duplicated stored_reply apply_to_state_machine
apply_op op sc =
    if not (is_query op.op_type) && request_duplicated sc.duplicate_table op.client_id op.seq_id
    then some (sc, stored_reply sc.duplicate_table op.client_id)
    else (apply_to_state_machine op sc.state_machine >>= λ p. some (
      record sc {
        state_machine = p.0;
        duplicate_table =
            if is_query op.op_type
            then sc.duplicate_table
            else insert op.client_id (record { seq_id = op.seq_id; reply = p.1 })
                sc.duplicate_table;
      },
      p.1,
    ))

-- The channel is made where there is none.
unfoldable pub get_notify_channel : ℕ → ShardCtrler → ShardCtrler × Option OpReply
get_notify_channel index sc = elim (lookup index sc.notify_chans) [
  | none ↦ (record sc { notify_chans = insert index none sc.notify_chans }, none)
  | some ch ↦ (sc, ch)
]

unfoldable pub remove_notify_channel : ℕ → ShardCtrler → ShardCtrler
remove_notify_channel index sc = record sc { notify_chans = erase index sc.notify_chans }

-- `notifyCh <- opReply`: a full channel blocks.
unfoldable pub notify : ℕ → OpReply → ShardCtrler → Option ShardCtrler
unfolding get_notify_channel
notify index reply sc =
    let (sc', ch) = get_notify_channel index sc in
    elim ch [
      | none ↦ some (record sc' { notify_chans = insert index (some reply) sc'.notify_chans })
      | some _ ↦ none
    ]

-- One round of `applyTask` on a valid command.
unfoldable pub apply_command : Bool → ℕ → Op → ShardCtrler → Option ShardCtrler
unfolding apply_op notify
apply_command leads index op sc =
    if leb index sc.last_applied
    then some sc
    else (apply_op op (record sc { last_applied = index }) >>= λ p.
        if leads then notify index p.1 p.0 else some p.0)

-- What `command` does before it starts agreement: it answers a repeated change at once, with the
-- error alone.
unfoldable pub command_answer : Op → ShardCtrler → Option OpReply
unfolding is_query request_duplicated stored_reply
command_answer op sc =
    if not (is_query op.op_type) && request_duplicated sc.duplicate_table op.client_id op.seq_id
    then some (record {
      controller_config = no_config;
      err = (stored_reply sc.duplicate_table op.client_id).err;
    })
    else none

-- The answer of `Start`, and the channel to wait on.
unfoldable pub await_result : Bool → ℕ → ShardCtrler → ShardCtrler × Option OpReply
unfolding get_notify_channel
await_result leads index sc =
    if leads
    then ((get_notify_channel index sc).0, none)
    else (sc, some (record { controller_config = no_config; err = err_wrong_leader }))

-- The `select` when it ends: a buffered reply is taken out, or the time is over.
unfoldable pub receive : ℕ → ShardCtrler → ShardCtrler × OpReply
receive index sc = elim (lookup index sc.notify_chans) [
  | some (some reply) ↦ (record sc { notify_chans = insert index none sc.notify_chans }, reply)
  | _ ↦ (sc, record { controller_config = no_config; err = err_timeout })
]

-- The four handlers' commands; the fields that a handler does not write are zero.
abbrev no_op : Op
no_op = record {
  servers = [];
  gids = [];
  shard = pos 0;
  gid = pos 0;
  num = pos 0;
  op_type = op_join;
  client_id = 0;
  seq_id = 0;
}

unfoldable pub join_op : Dict ℤ (List String) → ℕ → ℕ → Op
join_op servers client seq = record no_op {
  op_type = op_join;
  client_id = client;
  seq_id = seq;
  servers = servers;
}

unfoldable pub leave_op : List ℤ → ℕ → ℕ → Op
leave_op gids client seq = record no_op {
  op_type = op_leave;
  client_id = client;
  seq_id = seq;
  gids = gids;
}

unfoldable pub move_op : ℤ → ℤ → ℕ → ℕ → Op
move_op shard gid client seq = record no_op {
  op_type = op_move;
  client_id = client;
  seq_id = seq;
  shard = shard;
  gid = gid;
}

unfoldable pub query_op : ℤ → Op
query_op num = record no_op { op_type = op_query; num = num }
