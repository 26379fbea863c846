-- ===== src/Raft/Durable.antt =====
-- src/raft/raft_persistence.go: stable storage is never behind the term, the vote and the log, so
-- that a restart finds them.
use nexus_mind.Prelude.{ℕ, ◌<◌, ◌≡◌, ◌⊎◌, inl, inr, Option, none, some, [], arith}
use nexus_mind.Prelude.Int.{ℤ, minus_one}
use nexus_mind.Raft.Log.{RaftLog, new_log, invalid_index, invalid_term}
use nexus_mind.Raft.State.{
  Raft, Gob, Persister, Moment, follower, persisted, become_follower_locked, make, read_persist,
  start,
}
use nexus_mind.Raft.Election.{
  RequestVoteArgs, RequestVoteReply, request_vote, election_tick, ask_vote_reply,
}
use nexus_mind.Raft.Replication.{
  AppendEntriesArgs, AppendEntriesReply, append_entries, append_reply,
}
use nexus_mind.Raft.Compaction.{
  InstallSnapshotArgs, InstallSnapshotReply, snapshot, install_snapshot, install_reply,
}

module _ {C B : Type 0} (gob : Gob C B) where
  -- Nothing is stored and the peer is new, or all is stored as it stands.
  abbrev pub Stored : Raft C B → Type 0
  Stored r =
      (r.persister.raftstate ≡ gob.encode (persisted gob r.current_term r.voted_for r.log))
      × (r.persister.snapshot ≡ r.log.snapshot)

  abbrev pub IsFresh : Raft C B → Type 0
  IsFresh r =
      (gob.len r.persister.raftstate ≡ 0)
      × (r.current_term ≡ 1)
      × (r.voted_for ≡ minus_one)
      × (r.log ≡ new_log invalid_index invalid_term gob.no_bytes [])

  abbrev pub IsDurable : Raft C B → Type 0
  IsDurable r = IsFresh r ⊎ Stored r

  become_follower_locked-IsDurable :
      (term : ℕ) (r : Raft C B) → IsDurable r → IsDurable (become_follower_locked gob term r)
  unfolding become_follower_locked
  become_follower_locked-IsDurable term r d = ground arith

  pub request_vote-IsDurable :
      (m : Moment) (args : RequestVoteArgs) (r r' : Raft C B) (reply : RequestVoteReply)
      → request_vote gob m args r ≡ some (r', reply)
      → IsDurable r
      → IsDurable r'
  unfolding request_vote
  request_vote-IsDurable m args r r' reply h d = ground arith

  pub append_entries-IsDurable :
      (m : Moment) (args : AppendEntriesArgs C) (r r' : Raft C B) (reply : AppendEntriesReply)
      → append_entries gob m args r ≡ some (r', reply)
      → IsDurable r
      → IsDurable r'
  unfolding append_entries
  append_entries-IsDurable m args r r' reply h d = ground arith

  pub install_snapshot-IsDurable :
      (args : InstallSnapshotArgs B) (r : Raft C B)
      → IsDurable r
      → IsDurable (install_snapshot gob args r).0
  unfolding install_snapshot
  install_snapshot-IsDurable args r d = ground arith

  pub snapshot-IsDurable :
      (index : ℕ) (bytes : B) (r r' : Raft C B)
      → snapshot gob index bytes r ≡ some r'
      → IsDurable r
      → IsDurable r'
  unfolding snapshot
  snapshot-IsDurable index bytes r r' h d = ground arith

  pub start-IsDurable :
      (command : C) (r : Raft C B) → IsDurable r → IsDurable (start gob command r).0
  unfolding start
  start-IsDurable command r d = ground arith

  pub election_tick-IsDurable :
      (m : Moment) (r : Raft C B) → IsDurable r → IsDurable (election_tick gob m r).0
  unfolding election_tick
  election_tick-IsDurable m r d = ground arith

  pub ask_vote_reply-IsDurable :
      (term votes : ℕ) (reply : Option RequestVoteReply) (r : Raft C B)
      → IsDurable r
      → IsDurable (ask_vote_reply gob term votes reply r).0
  unfolding ask_vote_reply
  ask_vote_reply-IsDurable term votes none r d = d
  ask_vote_reply-IsDurable term votes (some reply) r d = ground arith

  pub install_reply-IsDurable :
      (peer term : ℕ) (args : InstallSnapshotArgs B) (reply : Option InstallSnapshotReply)
      (r r' : Raft C B)
      → install_reply gob peer term args reply r ≡ some r'
      → IsDurable r
      → IsDurable r'
  unfolding install_reply
  install_reply-IsDurable peer term args none r r' h d = ground arith
  install_reply-IsDurable peer term args (some reply) r r' h d = ground arith

  pub append_reply-IsDurable :
      (peer term : ℕ) (args : AppendEntriesArgs C) (reply : Option AppendEntriesReply)
      (r r' : Raft C B)
      → append_reply gob peer term args reply r ≡ some r'
      → IsDurable r
      → IsDurable r'
  unfolding append_reply
  append_reply-IsDurable peer term args none r r' h d = ground arith
  append_reply-IsDurable peer term args (some reply) r r' h d = ground arith

  stored_pos :
      (term : ℕ) (voted : ℤ) (rl : RaftLog C B)
      → 0 < gob.len (gob.encode (persisted gob term voted rl))
  stored_pos term voted rl = gob.encode_pos _ _

  -- A restart over the storage of a durable peer finds its term, its vote and its log. The peer is a
  -- follower then, and takes all that its snapshot covers for committed.
  pub make-read :
      (r : Raft C B) (peers me : ℕ)
      → IsDurable r
      → let r' = make gob peers me r.persister in
        (r'.current_term ≡ r.current_term)
        × (r'.voted_for ≡ r.voted_for)
        × (r'.log ≡ r.log)
        × (r'.persister ≡ r.persister)
        × (r'.role ≡ follower)
        × (r'.commit_index ≡ r.log.snap_last_idx)
  unfolding make read_persist new_log
  make-read r peers me (inl (e, t, v, l)) = ground arith
  make-read r peers me (inr (e, s)) =
      let vs = persisted gob r.current_term r.voted_for r.log in
      ground (
        arith,
        gob.decode-encode vs 0,
        gob.decode-encode vs 1,
        gob.decode-encode vs 2,
        gob.decode-encode vs 3,
        gob.decode-encode vs 4,
        stored_pos r.current_term r.voted_for r.log,
      )

  pub make-IsDurable :
      (r : Raft C B) (peers me : ℕ) → IsDurable r → IsDurable (make gob peers me r.persister)
  make-IsDurable r peers me d = ground (arith, make-read r peers me d)

  pub make-fresh :
      (peers me : ℕ) (ps : Persister B)
      → gob.len ps.raftstate ≡ 0
      → IsDurable (make gob peers me ps)
  unfolding make read_persist
  make-fresh peers me ps e = ground arith
