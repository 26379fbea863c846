-- ===== src/KvRaft/Client.antt =====
-- src/kvraft/client.go: the clerk's loop over the servers. What the calls answer is a list: `none`
-- for a call that failed.
use Prim.Native.String.{String}
use nexus_mind.Prelude.{
  ℕ, ◌+◌, ◌%◌, Bool, true, false, Option, none, some, List, [], ◌∷◌, if◌then◌else◌,
}
use nexus_mind.KvRaft.Common.{err_wrong_leader, err_timeout, PutAppendArgs, OpReply}

-- `servers` is their number.
pub record Clerk : Type 0 where
  pub servers : ℕ
  pub leader_id : ℕ
  pub client_id : ℕ
  pub seq_id : ℕ

-- `nrand()` draws the client's id below 2^62.
unfoldable pub make_clerk : ℕ → ℕ → Clerk
make_clerk servers rand = record { servers = servers; leader_id = 0; client_id = rand; seq_id = 0 }

-- `!ok || reply.Err == ErrWrongLeader || reply.Err == ErrTimeout`.
unfoldable pub must_retry : Option OpReply → Bool
must_retry none = true
must_retry (some r) = elim r.err [ err_wrong_leader ↦ true | err_timeout ↦ true | _ ↦ false ]

unfoldable pub next_server : Clerk → Clerk
next_server ck = record ck { leader_id = (ck.leader_id + 1) % ck.servers }

-- `Get`: the value of the first answer that counts; `none` while all calls must be made again.
unfoldable pub get : List (Option OpReply) → Clerk → Clerk × Option String
unfolding must_retry next_server
get [] ck = (ck, none)
get (r ∷ rs) ck = elim r [
  | none ↦ get rs (next_server ck)
  | some reply ↦
      let again = get rs (next_server ck) in
      if must_retry (some reply) then again else (ck, some reply.value)
]

-- The arguments that every call of one `PutAppend` sends.
unfoldable pub put_append_args : String → String → String → Clerk → PutAppendArgs
put_append_args key value op ck = record {
  key = key;
  value = value;
  op = op;
  client_id = ck.client_id;
  seq_id = ck.seq_id;
}

-- `PutAppend`: `true` when it returns.
unfoldable pub put_append : List (Option OpReply) → Clerk → Clerk × Bool
unfolding must_retry next_server
put_append [] ck = (ck, false)
put_append (r ∷ rs) ck =
    let again = put_append rs (next_server ck) in
    if must_retry r then again else (record ck { seq_id = ck.seq_id + 1 }, true)
