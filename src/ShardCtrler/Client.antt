-- ===== src/ShardCtrler/Client.antt =====
-- src/shardctrler/client.go: the clerk's loops over the servers. What the calls answer is a list:
-- `none` for a call that failed.
use nexus_mind.Prelude.{
  ℕ, ◌+◌, ◌%◌, Bool, true, false, Option, none, some, List, [], ◌∷◌, if◌then◌else◌,
}
use nexus_mind.ShardCtrler.Common.{Config, err_wrong_leader, err_timeout, OpReply}

-- `servers` is their number.
pub record Clerk : Type 0 where
  pub servers : ℕ
  pub leader_id : ℕ
  pub client_id : ℕ
  pub seq_id : ℕ

-- `nrand()` draws the client's id below 2^62.
unfoldable pub make_clerk : ℕ → ℕ → Clerk
make_clerk servers rand = record { servers = servers; leader_id = 0; client_id = rand; seq_id = 0 }

-- `!ok || reply.Err == ErrWrongLeader || reply.Err == ErrTimeout`.
unfoldable pub must_retry : Option OpReply → Bool
must_retry none = true
must_retry (some r) = elim r.err [ err_wrong_leader ↦ true | err_timeout ↦ true | _ ↦ false ]

unfoldable pub next_server : Clerk → Clerk
next_server ck = record ck { leader_id = (ck.leader_id + 1) % ck.servers }

-- `Query`: the configuration of the first answer that counts; `none` while all calls must be made
-- again.
unfoldable pub query : List (Option OpReply) → Clerk → Clerk × Option Config
unfolding must_retry next_server
query [] ck = (ck, none)
query (r ∷ rs) ck = elim r [
  | none ↦ query rs (next_server ck)
  | some reply ↦
      let again = query rs (next_server ck) in
      if must_retry (some reply) then again else (ck, some reply.controller_config)
]

-- The loop of `Join`, `Leave` and `Move`: `true` when it returns.
unfoldable pub change : List (Option OpReply) → Clerk → Clerk × Bool
unfolding must_retry next_server
change [] ck = (ck, false)
change (r ∷ rs) ck =
    let again = change rs (next_server ck) in
    if must_retry r then again else (record ck { seq_id = ck.seq_id + 1 }, true)
