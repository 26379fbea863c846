-- ===== src/Raft/Votes.antt =====
-- src/raft/raft_election.go: whom a peer votes for, and how often.
use nexus_mind.Prelude.{ℕ, ◌≤◌, ◌<◌, ◌≡◌, ◌↔◌, ◌⊎◌, true, none, some, arith}
use nexus_mind.Prelude.Int.{pos, minus_one}
use nexus_mind.Raft.Log.{last}
use nexus_mind.Raft.State.{Raft, Gob, Moment, start}
use nexus_mind.Raft.Election.{
  RequestVoteArgs, RequestVoteReply, request_vote, election_tick, ask_vote_reply,
}
use nexus_mind.Raft.Replication.{append_entries, append_reply}
use nexus_mind.Raft.Compaction.{snapshot, install_snapshot, install_reply}
use nexus_mind.Raft.Durable.{IsDurable, make-read}
use nexus_mind.Raft.Steps.{
  Step, votes, appends, installs, snapshots, starts, ticks, vote_ends, replicates, append_ends,
  install_ends, collects, finishes, crashes, Steps, here, next, SameStored, Step-IsDurable,
  start_replication-SameStored, apply_collect-SameStored, apply_finish-SameStored, Steps-IsDurable,
}

module _ {C B : Type 0} (gob : Gob C B) where
  -- A vote is granted exactly when the candidate's term is not behind, no vote has been given in
  -- it, and the candidate's last entry is at least as up to date as the peer's.
  pub request_vote_iff :
      (m : Moment) (args : RequestVoteArgs) (r r' : Raft C B) (reply : RequestVoteReply)
      (index term : ℕ)
      → last r.log ≡ some (index, term)
      → request_vote gob m args r ≡ some (r', reply)
      → (reply.vote_granted ≡ true) ↔ (
          (r.current_term ≤ args.term)
          × ((r.current_term < args.term) ⊎ (r.voted_for ≡ minus_one))
          × ((term < args.last_log_term)
              ⊎ ((term ≡ args.last_log_term) × (index ≤ args.last_log_index))))
  unfolding request_vote
  request_vote_iff m args r r' reply index term e h = (λ g. ground arith, λ g. ground arith)

  pub request_vote_granted :
      (m : Moment) (args : RequestVoteArgs) (r r' : Raft C B) (reply : RequestVoteReply)
      → request_vote gob m args r ≡ some (r', reply)
      → reply.vote_granted ≡ true
      → (r'.current_term ≡ args.term) × (r'.voted_for ≡ pos args.candidate_id)
  unfolding request_vote
  request_vote_granted m args r r' reply h g = ground arith

  pub request_vote_free :
      (m : Moment) (args : RequestVoteArgs) (r r' : Raft C B) (reply : RequestVoteReply)
      → request_vote gob m args r ≡ some (r', reply)
      → reply.vote_granted ≡ true
      → (r.current_term < args.term) ⊎ ((r.current_term ≡ args.term) × (r.voted_for ≡ minus_one))
  unfolding request_vote
  request_vote_free m args r r' reply h g = ground arith

-- The term rises, or it stays and a vote given in it stays.
abbrev pub Later : {C B : Type 0} → Raft C B → Raft C B → Type 0
Later r r' =
    (r.current_term < r'.current_term)
    ⊎ ((r'.current_term ≡ r.current_term)
        × ((r.voted_for ≡ minus_one) ⊎ (r'.voted_for ≡ r.voted_for)))

Later-trans : {C B : Type 0} (r s t : Raft C B) → Later r s → Later s t → Later r t
Later-trans r s t p q = ground arith

SameStored-Later : {C B : Type 0} (r r' : Raft C B) → SameStored r r' → Later r r'
SameStored-Later r r' s = ground arith

module _ {C B : Type 0} (gob : Gob C B) where
  pub Step-Later : {r r' : Raft C B} → Step gob r r' → IsDurable gob r → Later r r'
  unfolding request_vote append_entries install_snapshot snapshot start election_tick ask_vote_reply
      append_reply install_reply
  Step-Later (votes m args reply h) d = ground arith
  Step-Later (appends m args reply h) d = ground arith
  Step-Later (installs args h) d = ground arith
  Step-Later (snapshots index bytes h) d = ground arith
  Step-Later (starts command h) d = ground arith
  Step-Later (ticks m h) d = ground arith
  Step-Later (vote_ends term count none h) d = ground arith
  Step-Later (vote_ends term count (some reply) h) d = ground arith
  Step-Later {r} {r'} (replicates term sends go h) d =
      SameStored-Later r r' (start_replication-SameStored term r r' sends go h)
  Step-Later (append_ends peer term args none h) d = ground arith
  Step-Later (append_ends peer term args (some reply) h) d = ground arith
  Step-Later (install_ends peer term args none h) d = ground arith
  Step-Later (install_ends peer term args (some reply) h) d = ground arith
  Step-Later {r} {r'} (collects b h) d = SameStored-Later r r' (apply_collect-SameStored r r' b h)
  Step-Later {r} {r'} (finishes b h) d = SameStored-Later r r' (rw h (apply_finish-SameStored b r))
  Step-Later {r} (crashes h) d = ground (arith, make-read gob r r.peers r.me d)

  Steps-Later : {r r' : Raft C B} → Steps gob r r' → IsDurable gob r → Later r r'
  Steps-Later here d = ground arith
  Steps-Later {r} {r'} (next {s} ss st) d =
      Later-trans r s r' (Steps-Later ss d) (Step-Later st (Steps-IsDurable gob ss d))

  -- Of two votes that a peer grants, at two requests with any steps in between, crashes and
  -- restarts included, the later one is for a higher term; the peer starts with its stored state up
  -- to date.
  pub vote_once :
      (m m' : Moment) (a a' : RequestVoteArgs) (reply reply' : RequestVoteReply)
      (r s t u : Raft C B)
      → IsDurable gob r
      → request_vote gob m a r ≡ some (s, reply)
      → reply.vote_granted ≡ true
      → Steps gob s t
      → request_vote gob m' a' t ≡ some (u, reply')
      → reply'.vote_granted ≡ true
      → a.term < a'.term
  vote_once m m' a a' reply reply' r s t u d h g ss h' g' =
      let (st, sv) = request_vote_granted gob m a r s reply h g in
      ground (
        arith,
        Steps-Later ss (Step-IsDurable gob (votes m a reply h) d),
        request_vote_free gob m' a' t u reply' h' g',
      )
