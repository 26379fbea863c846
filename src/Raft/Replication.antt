-- ===== src/Raft/Replication.antt =====
-- src/raft/raft_replication.go: the leader's appends, the follower's handler, and the commit index.
use nexus_mind.Prelude.{
  ℕ, zero, suc, ◌+◌, ◌-◌, ◌/◌, Bool, true, false, Option, none, some, List, [], ◌∷◌, ◌++◌, ltb, leb,
  ◌==◌, if◌then◌else◌, ◌>>=◌, length, get_elem?, set, take, drop, replicate,
}
use nexus_mind.Prelude.Sort.{sort_ints}
use nexus_mind.Raft.Log.{
  LogEntry, size, at, tail, append_from, first_for, invalid_term, invalid_index,
}
use nexus_mind.Raft.State.{
  Raft, Gob, Moment, leader, persist_locked, become_follower_locked, context_lost_locked,
}
use nexus_mind.Raft.Election.{reset_election_timer_locked}
use nexus_mind.Raft.Compaction.{InstallSnapshotArgs}

pub record AppendEntriesArgs (C : Type 0) : Type 0 where
  pub term : ℕ
  pub leader_id : ℕ
  pub prev_log_index : ℕ
  pub prev_log_term : ℕ
  pub entries : List (LogEntry C)
  pub leader_commit : ℕ

pub record AppendEntriesReply : Type 0 where
  pub term : ℕ
  pub success : Bool
  pub conflict_index : ℕ
  pub conflict_term : ℕ

-- `copy(dst, src)`: the shorter length is copied.
unfoldable pub copy_slice : List ℕ → List ℕ → List ℕ
copy_slice dst src = take (length dst) src ++ drop (length src) dst

unfoldable pub refuse : ℕ → ℕ → ℕ → AppendEntriesReply
refuse term index conflict_term = record {
  term = term;
  success = false;
  conflict_index = index;
  conflict_term = conflict_term;
}

module _ {C B : Type 0} where
  unfoldable pub get_majority_index_locked : Raft C B → Option ℕ
  unfolding copy_slice sort_ints
  get_majority_index_locked r =
      get_elem? (sort_ints (copy_slice (replicate r.peers 0) r.match_index)) ((r.peers - 1) / 2)

  -- The leader's probe after a refusal: a lower `nextIndex`, never a higher one.
  unfoldable pub probe_index : Raft C B → AppendEntriesReply → ℕ → ℕ
  unfolding first_for
  probe_index r reply prev =
      let first = first_for r.log reply.conflict_term in
      let next =
        if reply.conflict_term == invalid_term
        then reply.conflict_index
        else if first == invalid_index
        then reply.conflict_index
        else first in
      if ltb prev next then prev else next

  unfoldable pub set_match : Raft C B → ℕ → ℕ → Raft C B
  set_match r peer matched = record r {
    match_index = set r.match_index peer matched;
    next_index = set r.next_index peer (matched + 1);
  }

  -- The commit index follows a majority of the peers, for an entry of the current term only.
  unfoldable pub update_commit : Raft C B → Option (Raft C B)
  unfolding get_majority_index_locked at
  update_commit r = get_majority_index_locked r >>= λ majority.
      if ltb r.commit_index majority
      then (at r.log majority >>= λ e.
          some (if e.term == r.current_term then record r { commit_index = majority } else r))
      else some r

  -- The refusal branch; the entry before the next probe is read, for the message that is logged.
  unfoldable pub probe_lower : ℕ → AppendEntriesReply → Raft C B → Option (Raft C B)
  unfolding probe_index at
  probe_lower peer reply r = get_elem? r.next_index peer >>= λ prev.
      let next = probe_index r reply prev in
      let r' = record r { next_index = set r.next_index peer next } in
      if ltb next (r.log.snap_last_idx + 1) then some r' else (at r.log (next - 1) >>= λ e. some r')

module _ {C B : Type 0} (gob : Gob C B) where
  -- The log ends with the leader's entries; a higher commit index of the leader's is taken over.
  unfoldable pub accept_entries :
      AppendEntriesArgs C → ℕ → Raft C B → Option (Raft C B × AppendEntriesReply)
  unfolding append_from persist_locked
  accept_entries args reply_term r = append_from r.log args.prev_log_index args.entries >>= λ rl.
      let r' = persist_locked gob (record r { log = rl }) in
      some (
        if ltb r'.commit_index args.leader_commit
            then record r' { commit_index = args.leader_commit }
            else r',
        record { term = reply_term; success = true; conflict_index = 0; conflict_term = 0 },
      )

  -- The tests on the entry before the new ones.
  unfoldable pub match_entries :
      AppendEntriesArgs C → ℕ → Raft C B → Option (Raft C B × AppendEntriesReply)
  unfolding accept_entries size at first_for refuse
  match_entries args reply_term r =
      if leb (size r.log) args.prev_log_index
      then some (r, refuse reply_term (size r.log) invalid_term)
      else if ltb args.prev_log_index r.log.snap_last_idx
      then some (r, refuse reply_term r.log.snap_last_idx r.log.snap_last_term)
      else (at r.log args.prev_log_index >>= λ e.
          if e.term == args.prev_log_term
          then accept_entries args reply_term r
          else some (r, refuse reply_term (first_for r.log e.term) e.term))

  -- The deferred call resets the timer on every path that has aligned the term.
  unfoldable pub append_entries :
      Moment → AppendEntriesArgs C → Raft C B → Option (Raft C B × AppendEntriesReply)
  unfolding match_entries become_follower_locked reset_election_timer_locked refuse
  append_entries m args r =
      if ltb args.term r.current_term
      then some (r, refuse r.current_term 0 0)
      else (match_entries args r.current_term (become_follower_locked gob args.term r) >>= λ p.
          some (reset_election_timer_locked m p.0, p.1))

  -- `replicateToPeer` when the call is over; `none` is a call that failed.
  unfoldable pub append_reply :
      ℕ → ℕ → AppendEntriesArgs C → Option AppendEntriesReply → Raft C B → Option (Raft C B)
  unfolding become_follower_locked context_lost_locked probe_lower set_match update_commit
  append_reply peer term args none r = some r
  append_reply peer term args (some reply) r =
      if ltb r.current_term reply.term
      then some (become_follower_locked gob reply.term r)
      else if context_lost_locked r leader term
      then some r
      else if reply.success
      then (get_elem? r.match_index peer >>= λ _.
          update_commit (set_match r peer (args.prev_log_index + length args.entries)))
      else probe_lower peer reply r

-- What the leader sends in one round.
pub data Send (C B : Type 0) : Type 0 where
  append_to : ℕ → AppendEntriesArgs C → Send C B
  snapshot_to : ℕ → InstallSnapshotArgs B → Send C B

module _ {C B : Type 0} where
  -- `nextIndex - 1` below the snapshot, -1 included: the snapshot is sent.
  unfoldable pub message_for : ℕ → Raft C B → Option (Send C B)
  unfolding at tail
  message_for peer r = get_elem? r.next_index peer >>= λ next.
      if ltb next (r.log.snap_last_idx + 1)
      then some (
          snapshot_to peer (record {
            term = r.current_term;
            leader_id = r.me;
            last_included_index = r.log.snap_last_idx;
            last_included_term = r.log.snap_last_term;
            snapshot = r.log.snapshot;
          }))
      else (at r.log (next - 1) >>= λ e. tail r.log next >>= λ es. some (
          append_to peer (record {
            term = r.current_term;
            leader_id = r.me;
            prev_log_index = next - 1;
            prev_log_term = e.term;
            entries = es;
            leader_commit = r.commit_index;
          })))

  -- The leader's own entry in the two lists.
  unfoldable pub own_index : ℕ → Raft C B → Raft C B
  unfolding size
  own_index peer r = record r {
    match_index = set r.match_index peer (size r.log - 1);
    next_index = set r.next_index peer (size r.log);
  }

  -- The loop over the peers from `peer` on, `n` of them.
  unfoldable pub replicate_from : ℕ → ℕ → Raft C B → Option (Raft C B × List (Send C B))
  unfolding message_for own_index
  replicate_from zero peer r = some (r, [])
  replicate_from (suc n) peer r = elim (peer == r.me) [
    | true ↦ replicate_from n (peer + 1) (own_index peer r)
    | false ↦
        (message_for peer r >>= λ s. replicate_from n (peer + 1) r >>= λ p. some (p.0, s ∷ p.1))
  ]

  -- One round of `replicationTicker(term)`; `false` ends the ticker.
  unfoldable pub start_replication : ℕ → Raft C B → Option (Raft C B × List (Send C B) × Bool)
  unfolding context_lost_locked replicate_from
  start_replication term r =
      if context_lost_locked r leader term
      then some (r, [], false)
      else (replicate_from r.peers 0 r >>= λ p. some (p.0, p.1, true))
