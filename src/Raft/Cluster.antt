-- ===== src/Raft/Cluster.antt =====
-- src/raft/: peers that hold elections among each other. A move is a critical section of one peer, or
-- a step of `startElection` in src/raft/raft_election.go; a call that is lost is one that is never
-- answered, and any number of elections may be under way.
use nexus_mind.Prelude.{ℕ, ◌≡◌, Bool, true, Option, none, some, ◌==◌, if◌then◌else◌}
use nexus_mind.Prelude.Dict.{Dict, nat_eq, lookup}
use nexus_mind.Raft.State.{Raft, Gob, Moment, Persister, make}
use nexus_mind.Raft.Election.{
  RequestVoteArgs, RequestVoteReply, request_vote, election_tick, ask_vote_reply, start_election,
}
use nexus_mind.Raft.Steps.{Step}
use nexus_mind.Raft.Roles.{IsOther}

-- Where an election's call to a peer stands: not made, sent, answered, or counted, granted or not.
pub data Call : Type 0 where
  unasked : Call
  asked : RequestVoteArgs → Call
  answered : RequestVoteReply → Call
  settled : Bool → Call

-- `startElection(term)` of a peer, with its variable `votes`.
pub record Election : Type 0 where
  pub candidate : ℕ
  pub term : ℕ
  pub votes : ℕ
  pub call : ℕ → Call

-- `voted i t` remembers whom peer `i` has voted for in term `t`; no code reads it.
pub record Cluster (C B : Type 0) : Type 0 where
  pub peer : ℕ → Raft C B
  pub elections : ℕ → Option Election
  pub voted : ℕ → ℕ → Option ℕ

abbrev pub update {ℓ} : {A : Type ℓ} → ℕ → A → (ℕ → A) → ℕ → A
update k a f j = if k == j then a else f j

abbrev pub vote : ℕ → ℕ → ℕ → (ℕ → ℕ → Option ℕ) → ℕ → ℕ → Option ℕ
vote i term c f j t = if i == j then (if term == t then some c else f j t) else f j t

-- Its own vote counts at once, and the requests are sent.
abbrev pub first_calls : ℕ → Dict ℕ RequestVoteArgs → ℕ → Call
first_calls me requests p =
    if me == p
    then settled true
    else elim (lookup p requests) [ none ↦ unasked | some args ↦ asked args ]

module _ {C B : Type 0} (gob : Gob C B) where
  pub data Move (g g' : Cluster C B) : Type 0 where
    others :
        (i : ℕ) (r : Raft C B) (s : Step gob (g.peer i) r)
        → IsOther s
        → g' ≡ record g { peer = update i r g.peer }
        → Move g g'
    times_out :
        (i : ℕ) (m : Moment) (r : Raft C B) (term : ℕ)
        → election_tick gob m (g.peer i) ≡ (r, some term)
        → g' ≡ record g { peer = update i r g.peer; voted = vote i term i g.voted }
        → Move g g'
    launches :
        (i k term count : ℕ) (requests : Dict ℕ RequestVoteArgs)
        → g.elections k ≡ none
        → start_election term (g.peer i) ≡ some (some (count, requests))
        → g' ≡ record g {
          elections =
              update k
                (some (record {
                  candidate = i;
                  term = term;
                  votes = count;
                  call = first_calls i requests;
                }))
                g.elections;
        }
        → Move g g'
    delivers :
        (k p : ℕ) (m : Moment) (e : Election) (args : RequestVoteArgs) (reply : RequestVoteReply)
        (r : Raft C B)
        → g.elections k ≡ some e
        → e.call p ≡ asked args
        → request_vote gob m args (g.peer p) ≡ some (r, reply)
        → g' ≡ record {
          peer = update p r g.peer;
          elections =
              update k (some (record e { call = update p (answered reply) e.call })) g.elections;
          voted =
              if reply.vote_granted then vote p args.term args.candidate_id g.voted else g.voted;
        }
        → Move g g'
    counts :
        (k p : ℕ) (e : Election) (reply : RequestVoteReply) (r : Raft C B) (count : ℕ) (go : Bool)
        → g.elections k ≡ some e
        → e.call p ≡ answered reply
        → ask_vote_reply gob e.term e.votes (some reply) (g.peer e.candidate) ≡ (r, count, go)
        → g' ≡ record g {
          peer = update e.candidate r g.peer;
          elections =
              update k
                (some
                  (record e { votes = count; call = update p (settled reply.vote_granted) e.call }))
                g.elections;
        }
        → Move g g'

  -- What `n` peers reach that are started over empty storage.
  pub data Reached (n : ℕ) : Cluster C B → Type 0 where
    at_start :
        (ps : ℕ → Persister B)
        → ((i : ℕ) → gob.len (ps i).raftstate ≡ 0)
        → Reached n
            (record { peer = λ i. make gob n i (ps i); elections = λ k. none; voted = λ i t. none })
    moves : {g g' : Cluster C B} → Reached n g → Move g g' → Reached n g'
