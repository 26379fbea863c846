-- ===== src/Raft/Election.antt =====
-- src/raft/raft_election.go: the election timer, the vote handler and a candidate's election.
use nexus_mind.Prelude.{
  ℕ, zero, suc, ◌+◌, ◌-◌, ◌/◌, ◌%◌, Bool, true, false, not, ◌&&◌, Option, none, some, List, [], ◌∷◌,
  ltb, ◌==◌, if◌then◌else◌, ◌>>=◌,
}
use nexus_mind.Prelude.Int.{pos, minus_one, ◌==ℤ◌}
use nexus_mind.Raft.Log.{last}
use nexus_mind.Raft.State.{
  Raft, Gob, Moment, candidate, is_leader, persist_locked, become_follower_locked,
  become_candidate_locked, become_leader_locked, context_lost_locked,
}

-- Nanoseconds, as `time.Duration` counts them.
abbrev pub election_timeout_min : ℕ
election_timeout_min = 250_000_000

abbrev pub election_timeout_max : ℕ
election_timeout_max = 400_000_000

pub record RequestVoteArgs : Type 0 where
  pub term : ℕ
  pub candidate_id : ℕ
  pub last_log_index : ℕ
  pub last_log_term : ℕ

pub record RequestVoteReply : Type 0 where
  pub term : ℕ
  pub vote_granted : Bool

module _ {C B : Type 0} where
  unfoldable pub reset_election_timer_locked : Moment → Raft C B → Raft C B
  reset_election_timer_locked m r = record r {
    election_start = m.now;
    election_timeout =
        election_timeout_min + m.rand % (election_timeout_max - election_timeout_min);
  }

  -- `time.Since(electionStart) > electionTimeout`.
  unfoldable pub is_election_timeout_locked : Moment → Raft C B → Bool
  is_election_timeout_locked m r = ltb (r.election_start + r.election_timeout) m.now

  -- My last entry is more up to date than the candidate's.
  unfoldable pub is_more_up_to_date_locked : Raft C B → ℕ → ℕ → Option Bool
  unfolding last
  is_more_up_to_date_locked r candidate_index candidate_term = last r.log >>= λ l.
      some (if l.1 == candidate_term then ltb candidate_index l.0 else ltb candidate_term l.1)

module _ {C B : Type 0} (gob : Gob C B) where
  -- After the term is aligned: the vote is free and the candidate is up to date, or it is refused.
  unfoldable pub decide_vote :
      Moment → RequestVoteArgs → ℕ → Raft C B → Option (Raft C B × RequestVoteReply)
  unfolding is_more_up_to_date_locked persist_locked reset_election_timer_locked
  decide_vote m args reply_term r =
      if not (r.voted_for ==ℤ minus_one)
      then some (r, record { term = reply_term; vote_granted = false })
      else (is_more_up_to_date_locked r args.last_log_index args.last_log_term >>= λ newer. some (
          if newer then (r, record { term = reply_term; vote_granted = false }) else (
            reset_election_timer_locked m
                (persist_locked gob (record r { voted_for = pos args.candidate_id })),
            record { term = reply_term; vote_granted = true },
          )))

  -- The reply carries the term that the peer had before it aligned.
  unfoldable pub request_vote :
      Moment → RequestVoteArgs → Raft C B → Option (Raft C B × RequestVoteReply)
  unfolding decide_vote become_follower_locked
  request_vote m args r =
      if ltb args.term r.current_term
      then some (r, record { term = r.current_term; vote_granted = false })
      else decide_vote m args r.current_term
          (if ltb r.current_term args.term then become_follower_locked gob args.term r else r)

  -- One round of `electionTicker`: the term in which `startElection` is launched, if it is.
  unfoldable pub election_tick : Moment → Raft C B → Raft C B × Option ℕ
  unfolding is_leader is_election_timeout_locked become_candidate_locked
  election_tick m r =
      if not (is_leader r.role) && is_election_timeout_locked m r
      then (let r' = become_candidate_locked gob r in (r', some r'.current_term))
      else (r, none)

  -- The answer to one `RequestVote` of the election in `term`, with the votes counted so far;
  -- `none` is a call that failed. The last result says that `replicationTicker(term)` is launched.
  unfoldable pub ask_vote_reply : ℕ → ℕ → Option RequestVoteReply → Raft C B → Raft C B × ℕ × Bool
  unfolding become_follower_locked context_lost_locked become_leader_locked
  ask_vote_reply term votes none r = (r, votes, false)
  ask_vote_reply term votes (some reply) r =
      if ltb r.current_term reply.term
      then (become_follower_locked gob reply.term r, votes, false)
      else if context_lost_locked r candidate term
      then (r, votes, false)
      else if not reply.vote_granted
      then (r, votes, false)
      else if ltb (r.peers / 2) (votes + 1)
      then (become_leader_locked r, votes + 1, true)
      else (r, votes + 1, false)

-- The requests to peers `peer`, `peer + 1`, …, `n` of them, and the votes: its own is counted.
unfoldable pub ask_peers : ℕ → ℕ → ℕ → RequestVoteArgs → ℕ → ℕ × List (ℕ × RequestVoteArgs)
ask_peers zero peer me args votes = (votes, [])
ask_peers (suc n) peer me args votes =
    let rest = ask_peers n (peer + 1) me args (if peer == me then votes + 1 else votes) in
    if peer == me then rest else (rest.0, (peer, args) ∷ rest.1)

-- `startElection`: nothing if the candidacy is over, else the votes and the requests to send.
unfoldable pub start_election :
    {C B : Type 0} → ℕ → Raft C B → Option (Option (ℕ × List (ℕ × RequestVoteArgs)))
unfolding context_lost_locked last ask_peers
start_election term r =
    if context_lost_locked r candidate term
    then some none
    else (last r.log >>= λ l. some (
        some (
          ask_peers r.peers 0 r.me
            (record {
              term = r.current_term;
              candidate_id = r.me;
              last_log_index = l.0;
              last_log_term = l.1;
            })
            0)))
