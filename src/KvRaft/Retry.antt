-- ===== src/KvRaft/Retry.antt =====
-- src/kvraft/client.go: how far a clerk goes round its servers, and when it returns.

use nexus_mind.Prelude.{
  ℕ, suc, ◌+◌, ◌%◌, ◌<◌, ◌≡◌, true, false, Option, none, some, List, [], ◌∷◌, ◌++◌, arith, length,
  ◌∙◌, ap,
}
use native.Mathlib.Nat.{mod-add-mod, mod-eq_of_lt, mod-lt}
use nexus_mind.KvRaft.Common.{OpReply}
use nexus_mind.KvRaft.Client.{Clerk, must_retry, next_server, get, put_append}

-- Every answer must be retried.
abbrev AllRetry : List (Option OpReply) → Type 0
AllRetry [] = Unit {0}
AllRetry (r ∷ rs) = (must_retry r ≡ true) × AllRetry rs

mod_step : (l k n : ℕ) → l < n → ((l + 1) % n + k) % n ≡ (l + suc k) % n
mod_step l k n h =
    let e : l + 1 + k ≡ l + suc k = omega arith in mod-add-mod (l + 1) n k ∙ ap (λ t. t % n) e

module _ (reply : OpReply) (rest : List (Option OpReply))
    (final : must_retry (some reply) ≡ false) where
  -- A write returns at the first answer that is not to be retried. By then the clerk has moved on
  -- by one server for each answer before, round the list, and its sequence number grows by one.
  pub put_append_returns :
      (before : List (Option OpReply)) (ck : Clerk)
      → AllRetry before
      → ck.leader_id < ck.servers
      → put_append (before ++ some reply ∷ rest) ck ≡ (
        record ck {
          leader_id = (ck.leader_id + length before) % ck.servers;
          seq_id = ck.seq_id + 1;
        },
        true,
      )
  unfolding put_append
  put_append_returns [] ck a h =
      let z : ck.leader_id + 0 ≡ ck.leader_id = omega arith in rw (final, z, mod-eq_of_lt h)
  put_append_returns (r ∷ before) ck a h = rw (a.0) (
      put_append_returns before (next_server ck) a.1 (mod-lt (ck.leader_id + 1) (omega arith))
      ∙ rw (mod_step ck.leader_id (length before) ck.servers h))

  -- A read returns the value of the first answer that is not to be retried, after moving on by one
  -- server for each answer before, round the list.
  pub get_returns :
      (before : List (Option OpReply)) (ck : Clerk)
      → AllRetry before
      → ck.leader_id < ck.servers
      → get (before ++ some reply ∷ rest) ck
        ≡ (record ck { leader_id = (ck.leader_id + length before) % ck.servers }, some reply.value)
  unfolding get
  get_returns [] ck a h =
      let z : ck.leader_id + 0 ≡ ck.leader_id = omega arith in rw (final, z, mod-eq_of_lt h)
  get_returns (none ∷ before) ck a h =
      get_returns before (next_server ck) a.1 (mod-lt (ck.leader_id + 1) (omega arith))
      ∙ rw (mod_step ck.leader_id (length before) ck.servers h)
  get_returns (some r ∷ before) ck a h = rw (a.0) (
      get_returns before (next_server ck) a.1 (mod-lt (ck.leader_id + 1) (omega arith))
      ∙ rw (mod_step ck.leader_id (length before) ck.servers h))
