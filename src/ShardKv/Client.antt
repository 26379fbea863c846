-- ===== src/ShardKv/Client.antt =====
-- src/shardkv/client.go: the clerk's two nested loops, over the servers of a group and over the
-- configurations. What the calls answer is a list, `none` for a call that failed.
use Prim.Native.String.{String}
use nexus_mind.Prelude.{
  ℕ, ◌+◌, ◌%◌, Bool, true, false, Option, none, some, List, [], ◌∷◌, if◌then◌else◌, ltb, ◌==◌,
  length, get_or, replicate,
}
use nexus_mind.Prelude.Dict.{Dict, int_eq, lookup, insert}
use nexus_mind.Prelude.Int.{ℤ, pos}
use nexus_mind.ShardCtrler.Common.{Config, n_shards}
use nexus_mind.ShardKv.Common.{
  Err, ok, err_no_key, err_wrong_group, err_wrong_leader, err_timeout, OpReply, PutAppendArgs,
  key2shard,
}

pub record Clerk : Type 0 where
  pub config : Config
  pub leader_ids : Dict ℤ ℕ
  pub client_id : ℕ
  pub seq_id : ℕ

-- `new(Clerk)` has the zero configuration; `nrand()` draws the client's id below 2^62.
unfoldable pub make_clerk : ℕ → Clerk
make_clerk rand = record {
  config = record { num = 0; shards = replicate n_shards (pos 0); groups = [] };
  leader_ids = [];
  client_id = rand;
  seq_id = 0;
}

-- How a loop ends: with a reply, with a `break` to ask for the latest configuration, by running out
-- of the answers given, or by an index out of range.
pub data Outcome (R : Type 0) : Type 0 where
  returned : R → Outcome R
  asks : Outcome R
  waits : Outcome R
  panics : Outcome R

-- What one answer makes the loop do.
pub data Verdict (R : Type 0) : Type 0 where
  returns : R → Verdict R
  leaves : Verdict R
  moves : Verdict R
  repeats : Verdict R

-- `reply.Err == OK || reply.Err == ErrNoKey`.
unfoldable pub get_final : Err → Bool
get_final ok = true
get_final err_no_key = true
get_final _ = false

-- `reply.Err == OK`.
unfoldable pub put_append_final : Err → Bool
put_append_final ok = true
put_append_final _ = false

-- A missing entry reads as 0.
unfoldable pub leader_of : ℤ → Clerk → ℕ
leader_of gid ck = elim (lookup gid ck.leader_ids) [ none ↦ 0 | some l ↦ l ]

unfoldable pub set_leader : ℤ → ℕ → Clerk → Clerk
set_leader gid l ck = record ck { leader_ids = insert gid l ck.leader_ids }

unfoldable pub ensure_leader : ℤ → Clerk → Clerk
unfolding set_leader
ensure_leader gid ck = elim (lookup gid ck.leader_ids) [ none ↦ set_leader gid 0 ck | some l ↦ ck ]

unfoldable pub next_leader : ℤ → ℕ → Clerk → Clerk
unfolding set_leader leader_of
next_leader gid servers ck = set_leader gid ((leader_of gid ck + 1) % servers) ck

unfoldable pub set_config : Config → Clerk → Clerk
set_config config ck = record ck { config = config }

-- `ck.config.Shards[key2shard(key)]`.
unfoldable pub gid_of : String → Clerk → ℤ
gid_of key ck = get_or ck.config.shards (key2shard key) (pos 0)

-- `err_of` reads a reply's error and `is_final` says which errors end the command.
module _ {R : Type 0} (err_of : R → Err) (is_final : Err → Bool) where
  unfoldable pub verdict : Option R → Verdict R
  verdict none = moves
  verdict (some reply) = if is_final (err_of reply) then returns reply else (elim (err_of reply) [
    | err_wrong_group ↦ leaves
    | err_wrong_leader ↦ moves
    | err_timeout ↦ moves
    | _ ↦ repeats
  ])

  -- The inner loop, over the `servers` of group `gid`; `old` is the leader it started from.
  unfoldable pub calls : ℤ → ℕ → ℕ → List (Option R) → Clerk → Clerk × Outcome R
  unfolding verdict next_leader leader_of
  calls gid servers old [] ck = (ck, if ltb (leader_of gid ck) servers then waits else panics)
  calls gid servers old (r ∷ rs) ck = elim (ltb (leader_of gid ck) servers) [
    | false ↦ (ck, panics)
    | true ↦ elim (verdict r) [
      | returns reply ↦ (ck, returned reply)
      | leaves ↦ (ck, asks)
      | repeats ↦ calls gid servers old rs ck
      | moves ↦ elim (leader_of gid (next_leader gid servers ck) == old) [
        | true ↦ (next_leader gid servers ck, asks)
        | false ↦ calls gid servers old rs (next_leader gid servers ck)
      ]
    ]
  ]

  -- One round of the outer loop, up to the pause.
  unfoldable pub attempt : String → List (Option R) → Clerk → Clerk × Outcome R
  unfolding calls ensure_leader leader_of
  attempt key answers ck =
      let gid = gid_of key ck in
      elim (lookup gid ck.config.groups) [
        | none ↦ (ck, asks)
        | some servers ↦
            let ck' = ensure_leader gid ck in
            calls gid (length servers) (leader_of gid ck') answers ck'
      ]

  -- The outer loop: each round has the answers to its calls and the configuration that it learns.
  unfoldable pub rounds : String → List (List (Option R) × Config) → Clerk → Clerk × Outcome R
  unfolding attempt set_config
  rounds key [] ck = (ck, waits)
  rounds key ((answers, config) ∷ rest) ck =
      let r = attempt key answers ck in
      elim (r.1) [
        | asks ↦ rounds key rest (set_config config (r.0))
        | returned reply ↦ r
        | waits ↦ r
        | panics ↦ r
      ]

unfoldable pub get :
    String → List (List (Option OpReply) × Config) → Clerk → Clerk × Outcome OpReply
unfolding get_final rounds
get key rs ck = rounds (λ reply. reply.err) get_final key rs ck

-- The arguments that every call of one `PutAppend` sends.
unfoldable pub put_append_args : String → String → String → Clerk → PutAppendArgs
put_append_args key value op ck = record {
  key = key;
  value = value;
  op = op;
  client_id = ck.client_id;
  seq_id = ck.seq_id;
}

-- A reply to `PutAppend` is its error.
unfoldable pub put_append : String → List (List (Option Err) × Config) → Clerk → Clerk × Outcome Err
unfolding put_append_final rounds
put_append key rs ck =
    let r = rounds (λ e. e) put_append_final key rs ck in
    elim (r.1) [
      | returned e ↦ (record (r.0) { seq_id = ck.seq_id + 1 }, returned e)
      | asks ↦ r
      | waits ↦ r
      | panics ↦ r
    ]
