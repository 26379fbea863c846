-- ===== src/Raft/Panics.antt =====
-- src/raft/: the handlers that other peers call do not panic.
use nexus_mind.Prelude.{
  ℕ, ◌+◌, ◌-◌, ◌<◌, ◌≡◌, inl, inr, true, none, some, List, [], ◌∷◌, arith, length, get_elem?_lt,
  Option-cases, length-append, take, length-take, Bool-cases,
}
use nexus_mind.Raft.Log.{RaftLog, LogEntry, last, append_from}
use nexus_mind.Raft.Log.Reads.{at_total, append_from_eq}
use nexus_mind.Raft.State.{Raft, Gob, Moment, Persister, make, start}
use nexus_mind.Raft.Election.{
  RequestVoteArgs, RequestVoteReply, request_vote, election_tick, ask_vote_reply,
}
use nexus_mind.Raft.Replication.{
  AppendEntriesArgs, AppendEntriesReply, append_entries, append_reply,
}
use nexus_mind.Raft.Matching.{accepted_log, append_entries_refused}
use nexus_mind.Raft.Compaction.{snapshot, install_snapshot, install_reply}
use nexus_mind.Raft.Durable.{IsDurable, make-read, make-fresh}
use nexus_mind.Raft.Steps.{
  Step, votes, appends, installs, snapshots, starts, ticks, vote_ends, replicates, append_ends,
  install_ends, collects, finishes, crashes, Steps, here, next, start_replication-SameStored,
  apply_collect-SameStored, apply_finish-SameStored, Steps-IsDurable,
}

module _ {C B : Type 0} where
  last_total : (rl : RaftLog C B) → 0 < length rl.tail_log → (l : ℕ × ℕ) × (last rl ≡ some l)
  unfolding last
  last_total rl h =
      let (e, p) = get_elem?_lt rl.tail_log (length rl.tail_log - 1) (omega arith) in
      ((rl.snap_last_idx + (length rl.tail_log - 1), e.term), ground arith)

  append_from-pos :
      (rl rl' : RaftLog C B) (prev : ℕ) (es : List (LogEntry C))
      → append_from rl prev es ≡ some rl'
      → 0 < length rl.tail_log
      → 0 < length rl'.tail_log
  unfolding append_from
  append_from-pos rl rl' prev es h p = ground (
    arith,
    length-append (take (prev - rl.snap_last_idx + 1) rl.tail_log) es,
    length-take (prev - rl.snap_last_idx + 1) rl.tail_log,
  )

module _ {C B : Type 0} (gob : Gob C B) where
  append_entries-pos :
      (m : Moment) (args : AppendEntriesArgs C) (r r' : Raft C B) (reply : AppendEntriesReply)
      → append_entries gob m args r ≡ some (r', reply)
      → 0 < length r.log.tail_log
      → 0 < length r'.log.tail_log
  append_entries-pos m args r r' reply h p = elim (Bool-cases reply.success) [
    | inl g ↦
        append_from-pos r.log r'.log args.prev_log_index args.entries
          (accepted_log gob m args r r' reply h g) p
    | inr g ↦ rw ((append_entries_refused gob m args r r' reply h g).0) p
  ]

  request_vote_total :
      (m : Moment) (args : RequestVoteArgs) (r : Raft C B)
      → 0 < length r.log.tail_log
      → (p : Raft C B × RequestVoteReply) × (request_vote gob m args r ≡ some p)
  unfolding request_vote
  request_vote_total m args r h =
      let (l, q) = last_total r.log h in
      elim (Option-cases (request_vote gob m args r)) [ inl n ↦ absurd (ground arith) | inr s ↦ s ]

  append_entries_total :
      (m : Moment) (args : AppendEntriesArgs C) (r : Raft C B)
      → (p : Raft C B × AppendEntriesReply) × (append_entries gob m args r ≡ some p)
  unfolding append_entries
  append_entries_total m args r = elim (Option-cases (append_entries gob m args r)) [
    | inl n ↦ absurd (
        ground (
          arith,
          at_total r.log args.prev_log_index,
          append_from_eq r.log args.prev_log_index args.entries,
        ))
    | inr s ↦ s
  ]

  -- The entry that stands for the snapshot is always there.
  Step-pos :
      {r r' : Raft C B}
      → Step gob r r'
      → IsDurable gob r
      → 0 < length r.log.tail_log
      → 0 < length r'.log.tail_log
  unfolding request_vote install_snapshot snapshot start election_tick ask_vote_reply install_reply
      append_reply
  Step-pos (votes m args reply h) d p = ground arith
  Step-pos {r} {r'} (appends m args reply h) d p = append_entries-pos m args r r' reply h p
  Step-pos (installs args h) d p = ground arith
  Step-pos (snapshots index bytes h) d p = ground arith
  Step-pos {r} (starts command h) d p = ground (
    arith,
    length-append r.log.tail_log
        (record { term = r.current_term; command_valid = true; command = some command } ∷ []),
  )
  Step-pos (ticks m h) d p = ground arith
  Step-pos (vote_ends term count none h) d p = ground arith
  Step-pos (vote_ends term count (some reply) h) d p = ground arith
  Step-pos {r} {r'} (replicates term sends go h) d p =
      ground (arith, start_replication-SameStored term r r' sends go h)
  Step-pos (append_ends peer term args none h) d p = ground arith
  Step-pos (append_ends peer term args (some reply) h) d p = ground arith
  Step-pos (install_ends peer term args none h) d p = ground arith
  Step-pos (install_ends peer term args (some reply) h) d p = ground arith
  Step-pos {r} {r'} (collects b h) d p = ground (arith, apply_collect-SameStored r r' b h)
  Step-pos {r} (finishes b h) d p = rw h (ground (arith, apply_finish-SameStored b r))
  Step-pos {r} (crashes h) d p = ground (arith, make-read gob r r.peers r.me d)

  Steps-pos :
      {r r' : Raft C B}
      → Steps gob r r'
      → IsDurable gob r
      → 0 < length r.log.tail_log
      → 0 < length r'.log.tail_log
  Steps-pos here d p = p
  Steps-pos (next ss st) d p = Step-pos st (Steps-IsDurable gob ss d) (Steps-pos ss d p)

  make-pos :
      (peers me : ℕ) (ps : Persister B)
      → gob.len ps.raftstate ≡ 0
      → 0 < length (make gob peers me ps).log.tail_log
  unfolding make
  make-pos peers me ps e = ground arith

  -- A peer that is started over empty storage never panics in the two handlers: whatever steps it
  -- has taken, a request for its vote and an append are answered, whatever they hold.
  pub handlers_total :
      (peers me : ℕ) (ps : Persister B) (m : Moment) (v : RequestVoteArgs) (a : AppendEntriesArgs C)
      {r : Raft C B}
      → gob.len ps.raftstate ≡ 0
      → Steps gob (make gob peers me ps) r
      → ((p : Raft C B × RequestVoteReply) × (request_vote gob m v r ≡ some p))
        × ((q : Raft C B × AppendEntriesReply) × (append_entries gob m a r ≡ some q))
  handlers_total peers me ps m v a {r} e ss = (
    request_vote_total m v r (Steps-pos ss (make-fresh gob peers me ps e) (make-pos peers me ps e)),
    append_entries_total m a r,
  )
