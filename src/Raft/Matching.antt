-- ===== src/Raft/Matching.antt =====
-- src/raft/raft_replication.go: what a follower's log is after an append, and what a refusal makes
-- the leader try next.
use Prim.Native.Nat.{max}
use nexus_mind.Prelude.{
  ℕ, ◌+◌, ◌≤◌, ◌<◌, ◌≡◌, ◌⊎◌, inl, inr, sym, ◌∙◌, some-inj, Option-cases, true, false, none, some,
  arith, length, get_elem?,
}
use nexus_mind.Raft.Log.{LogEntry, size, at, append_from}
use nexus_mind.Raft.Log.Reads.{append_from_lem, at_bounds, at_total, at_ge, append_from_eq}
use nexus_mind.Raft.State.{Raft, Gob, Moment}
use nexus_mind.Raft.Replication.{AppendEntriesArgs, AppendEntriesReply, append_entries}

module _ {C B : Type 0} (gob : Gob C B) where
  module _ (m : Moment) (args : AppendEntriesArgs C) (r r' : Raft C B) (reply : AppendEntriesReply)
      (h : append_entries gob m args r ≡ some (r', reply)) (g : reply.success ≡ true) where
    accepted_range :
        (r.log.snap_last_idx ≤ args.prev_log_index)
        × (args.prev_log_index < size r.log)
        × (r.current_term ≤ args.term)
        × (r'.current_term ≡ args.term)
    unfolding append_entries
    accepted_range = ground arith

    accepted_commit :
        ((r'.commit_index ≡ r.commit_index) × (args.leader_commit ≤ r.commit_index))
        ⊎ ((r'.commit_index ≡ args.leader_commit) × (r.commit_index < args.leader_commit))
    unfolding append_entries
    accepted_commit = ground arith

    accepted_prev :
        (e : LogEntry C) → at r.log args.prev_log_index ≡ some e → e.term ≡ args.prev_log_term
    unfolding append_entries
    accepted_prev e p = ground arith

    pub accepted_log : append_from r.log args.prev_log_index args.entries ≡ some r'.log
    unfolding append_entries
    accepted_log = ground arith

  -- When a follower accepts an append, its log held the entry before the new ones, with the term
  -- that the leader named. Its log then ends with the leader's entries and is as before up to that
  -- entry; its term is the leader's, and its commit index the larger of its own and the leader's.
  pub append_entries_accepted :
      (m : Moment) (args : AppendEntriesArgs C) (r r' : Raft C B) (reply : AppendEntriesReply)
      (i k : ℕ)
      → append_entries gob m args r ≡ some (r', reply)
      → reply.success ≡ true
      → i ≤ args.prev_log_index
      → (e : LogEntry C) × (at r.log args.prev_log_index ≡ some e)
        × (e.term ≡ args.prev_log_term)
        × (size r'.log ≡ args.prev_log_index + 1 + length args.entries)
        × (at r'.log i ≡ at r.log i)
        × (at r'.log (args.prev_log_index + 1 + k) ≡ get_elem? args.entries k)
        × (r'.current_term ≡ args.term)
        × (r'.commit_index ≡ max r.commit_index args.leader_commit)
  append_entries_accepted m args r r' reply i k h g le =
      let (lo, hi, _, t) = accepted_range m args r r' reply h g in
      let (e, p) = at_total r.log args.prev_log_index lo hi in
      let (rl, q, sz, old, new) =
        append_from_lem r.log args.prev_log_index args.entries i k lo hi le in
      let same : r'.log ≡ rl = some-inj _ _ (sym (accepted_log m args r r' reply h g) ∙ q) in
      (
        e,
        p,
        accepted_prev m args r r' reply h g e p,
        rw same sz,
        rw same old,
        rw same new,
        t,
        omega (arith, accepted_commit m args r r' reply h g),
      )

  -- A refused append changes neither the log nor the commit index.
  pub append_entries_refused :
      (m : Moment) (args : AppendEntriesArgs C) (r r' : Raft C B) (reply : AppendEntriesReply)
      → append_entries gob m args r ≡ some (r', reply)
      → reply.success ≡ false
      → (r'.log ≡ r.log) × (r'.commit_index ≡ r.commit_index)
  unfolding append_entries
  append_entries_refused m args r r' reply h g = ground arith

  accepts :
      (m : Moment) (args : AppendEntriesArgs C) (r : Raft C B) (e : LogEntry C)
      → r.current_term ≤ args.term
      → at r.log args.prev_log_index ≡ some e
      → e.term ≡ args.prev_log_term
      → (r' : Raft C B) × (reply : AppendEntriesReply) × (append_entries gob m args r
          ≡ some (r', reply))
        × (reply.success ≡ true)
  unfolding append_entries
  accepts m args r e t p q =
      let (lo, hi) = at_bounds r.log args.prev_log_index e p in
      elim (Option-cases (append_entries gob m args r)) [
        | inl n ↦
            absurd (ground (arith, append_from_eq r.log args.prev_log_index args.entries lo hi))
        | inr (w, s) ↦ (w.0, w.1, s, ground arith)
      ]

  -- An append of the follower's own term, whose entry before the new ones matches, is accepted; if
  -- its entries end before the follower's commit index, then the log no longer has the entry at the
  -- commit index.
  pub stale_append_loses :
      (m : Moment) (args : AppendEntriesArgs C) (r : Raft C B) (e : LogEntry C)
      → args.term ≡ r.current_term
      → at r.log args.prev_log_index ≡ some e
      → e.term ≡ args.prev_log_term
      → args.prev_log_index + length args.entries < r.commit_index
      → (r' : Raft C B) × (reply : AppendEntriesReply) × (append_entries gob m args r
          ≡ some (r', reply))
        × (reply.success ≡ true)
        × (at r'.log r.commit_index ≡ none)
        × (r'.commit_index ≡ max r.commit_index args.leader_commit)
  stale_append_loses m args r e t p q l =
      let (r', reply, h, g) = accepts m args r e (omega arith) p q in
      let (_, _, _, sz, _, _, _, c) =
        append_entries_accepted m args r r' reply args.prev_log_index 0 h g (omega arith) in
      (r', reply, h, g, at_ge r'.log r.commit_index (omega arith), c)
