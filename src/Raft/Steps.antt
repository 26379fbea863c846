-- ===== src/Raft/Steps.antt =====
-- src/raft/: the life of a peer as a sequence of steps. A step is one critical section of `rf.mu`:
-- a handler, a call of the service, the end of a call to another peer, a round of a ticker, or a
-- crash with a restart over what is stored.
use nexus_mind.Prelude.{
  ℕ, zero, suc, ◌+◌, ◌≡◌, inl, inr, Bool, Option, some, List, ◌∷◌, arith, ◌==◌, ◌>>=◌, >>=-eq-some,
  Bool-cases,
}
use nexus_mind.Raft.State.{Raft, Gob, Persister, Moment, make, start}
use nexus_mind.Raft.Election.{
  RequestVoteArgs, RequestVoteReply, request_vote, election_tick, ask_vote_reply,
}
use nexus_mind.Raft.Replication.{
  AppendEntriesArgs, AppendEntriesReply, append_entries, append_reply, start_replication, Send,
  replicate_from, message_for, own_index,
}
use nexus_mind.Raft.Compaction.{
  InstallSnapshotArgs, InstallSnapshotReply, snapshot, install_snapshot, install_reply,
}
use nexus_mind.Raft.Application.{Batch, apply_collect, apply_finish}
use nexus_mind.Raft.Durable.{
  IsDurable, request_vote-IsDurable, append_entries-IsDurable, install_snapshot-IsDurable,
  snapshot-IsDurable, start-IsDurable, election_tick-IsDurable, ask_vote_reply-IsDurable,
  install_reply-IsDurable, append_reply-IsDurable, make-read, make-IsDurable, make-fresh,
}

module _ {C B : Type 0} (gob : Gob C B) where
  pub data Step (r r' : Raft C B) : Type 0 where
    votes :
        (m : Moment) (args : RequestVoteArgs) (reply : RequestVoteReply)
        → request_vote gob m args r ≡ some (r', reply)
        → Step r r'
    appends :
        (m : Moment) (args : AppendEntriesArgs C) (reply : AppendEntriesReply)
        → append_entries gob m args r ≡ some (r', reply)
        → Step r r'
    installs : (args : InstallSnapshotArgs B) → r' ≡ (install_snapshot gob args r).0 → Step r r'
    snapshots : (index : ℕ) (bytes : B) → snapshot gob index bytes r ≡ some r' → Step r r'
    starts : (command : C) → r' ≡ (start gob command r).0 → Step r r'
    ticks : (m : Moment) → r' ≡ (election_tick gob m r).0 → Step r r'
    vote_ends :
        (term count : ℕ) (reply : Option RequestVoteReply)
        → r' ≡ (ask_vote_reply gob term count reply r).0
        → Step r r'
    replicates :
        (term : ℕ) (sends : List (Send C B)) (go : Bool)
        → start_replication term r ≡ some (r', sends, go)
        → Step r r'
    append_ends :
        (peer term : ℕ) (args : AppendEntriesArgs C) (reply : Option AppendEntriesReply)
        → append_reply gob peer term args reply r ≡ some r'
        → Step r r'
    install_ends :
        (peer term : ℕ) (args : InstallSnapshotArgs B) (reply : Option InstallSnapshotReply)
        → install_reply gob peer term args reply r ≡ some r'
        → Step r r'
    collects : (b : Batch C) → apply_collect r ≡ some (r', b) → Step r r'
    finishes : (b : Batch C) → r' ≡ apply_finish b r → Step r r'
    crashes : r' ≡ make gob r.peers r.me r.persister → Step r r'

  pub data Steps (r : Raft C B) : Raft C B → Type 0 where
    here : Steps r r
    next : {s t : Raft C B} → Steps r s → Step s t → Steps r t

-- What replication and application leave alone.
pub record SameStored {C B : Type 0} (r r' : Raft C B) : Type 0 where
  pub term : r'.current_term ≡ r.current_term
  pub voted : r'.voted_for ≡ r.voted_for
  pub log : r'.log ≡ r.log
  pub persister : r'.persister ≡ r.persister

module _ {C B : Type 0} where
  pub replicate_from-SameStored :
      (n peer : ℕ) (r r' : Raft C B) (sends : List (Send C B))
      → replicate_from n peer r ≡ some (r', sends)
      → SameStored r r'
  unfolding replicate_from
  replicate_from-SameStored zero peer r r' sends h = ground arith
  replicate_from-SameStored (suc n) peer r r' sends h = elim (Bool-cases (peer == r.me)) [
    | inl mine ↦
        let same =
          replicate_from-SameStored n (peer + 1) (own_index peer r) r' sends
            (rw (mine, replicate_from) at h) in
        ground arith
    | inr other ↦
        let rest = replicate_from n (peer + 1) r in
        let h' : (message_for peer r >>= λ s. rest >>= λ p. some (p.0, s ∷ p.1))
            ≡ some (r', sends) =
          rw (other, replicate_from) at h in
        let (s, _, h2) = >>=-eq-some (message_for peer r) _ h' in
        let (p, hp, h3) = >>=-eq-some rest _ h2 in
        ground (arith, replicate_from-SameStored n (peer + 1) r p.0 p.1 hp)
  ]

  pub apply_collect-SameStored :
      (r r' : Raft C B) (b : Batch C) → apply_collect r ≡ some (r', b) → SameStored r r'
  unfolding apply_collect
  apply_collect-SameStored r r' b h = ground arith

  pub apply_finish-SameStored : (b : Batch C) (r : Raft C B) → SameStored r (apply_finish b r)
  unfolding apply_finish
  apply_finish-SameStored (Batch.entries es) r = ground arith
  apply_finish-SameStored Batch.pending r = ground arith

  pub start_replication-SameStored :
      (term : ℕ) (r r' : Raft C B) (sends : List (Send C B)) (go : Bool)
      → start_replication term r ≡ some (r', sends, go)
      → SameStored r r'
  unfolding start_replication
  start_replication-SameStored term r r' sends go h =
      ground (arith, replicate_from-SameStored r.peers 0 r r' sends)

module _ {C B : Type 0} (gob : Gob C B) where
  SameStored-IsDurable : (r r' : Raft C B) → SameStored r r' → IsDurable gob r → IsDurable gob r'
  SameStored-IsDurable r r' s d = ground arith

  -- Whatever a peer does, and whenever it crashes, what it has stored stays equal to its term, its
  -- vote and its log.
  pub Step-IsDurable : {r r' : Raft C B} → Step gob r r' → IsDurable gob r → IsDurable gob r'
  Step-IsDurable {r} {r'} (votes m args reply h) d =
      request_vote-IsDurable gob m args r r' reply h d
  Step-IsDurable {r} {r'} (appends m args reply h) d =
      append_entries-IsDurable gob m args r r' reply h d
  Step-IsDurable {r} (installs args h) d = rw h (install_snapshot-IsDurable gob args r d)
  Step-IsDurable {r} {r'} (snapshots index bytes h) d = snapshot-IsDurable gob index bytes r r' h d
  Step-IsDurable {r} (starts command h) d = rw h (start-IsDurable gob command r d)
  Step-IsDurable {r} (ticks m h) d = rw h (election_tick-IsDurable gob m r d)
  Step-IsDurable {r} (vote_ends term count reply h) d =
      rw h (ask_vote_reply-IsDurable gob term count reply r d)
  Step-IsDurable {r} {r'} (replicates term sends go h) d =
      SameStored-IsDurable r r' (start_replication-SameStored term r r' sends go h) d
  Step-IsDurable {r} {r'} (append_ends peer term args reply h) d =
      append_reply-IsDurable gob peer term args reply r r' h d
  Step-IsDurable {r} {r'} (install_ends peer term args reply h) d =
      install_reply-IsDurable gob peer term args reply r r' h d
  Step-IsDurable {r} {r'} (collects b h) d =
      SameStored-IsDurable r r' (apply_collect-SameStored r r' b h) d
  Step-IsDurable {r} {r'} (finishes b h) d =
      SameStored-IsDurable r r' (rw h (apply_finish-SameStored b r)) d
  Step-IsDurable {r} (crashes h) d = rw h (make-IsDurable gob r r.peers r.me d)

  pub Steps-IsDurable : {r r' : Raft C B} → Steps gob r r' → IsDurable gob r → IsDurable gob r'
  Steps-IsDurable here d = d
  Steps-IsDurable (next ss s) d = Step-IsDurable s (Steps-IsDurable ss d)

  -- A peer that is started over empty storage, and then takes any steps at all, can be restarted at
  -- any moment with the term, the vote and the log that it had.
  pub Steps-recover :
      (peers me : ℕ) (ps : Persister B) {r : Raft C B}
      → gob.len ps.raftstate ≡ 0
      → Steps gob (make gob peers me ps) r
      → let r' = make gob r.peers r.me r.persister in
        (r'.current_term ≡ r.current_term) × (r'.voted_for ≡ r.voted_for) × (r'.log ≡ r.log)
  Steps-recover peers me ps {r} e ss =
      ground
        (arith, make-read gob r r.peers r.me (Steps-IsDurable ss (make-fresh gob peers me ps e)))
