-- ===== src/Raft/ElectedTests.antt =====
-- src/raft/: an election among three peers.

use nexus_mind.Prelude.{ℕ, ◌≡◌, refl, true, none, some, [], ◌∷◌}
use nexus_mind.Prelude.Dict.{nat_eq, lookup}
use nexus_mind.Raft.Log.{last}
use nexus_mind.Raft.State.{Raft, Moment, make}
use nexus_mind.Raft.Election.{
  RequestVoteReply, request_vote, election_tick, start_election, ask_vote_reply,
}
use nexus_mind.Raft.Replication.{}
use nexus_mind.Raft.Application.{}
use nexus_mind.Raft.Cluster.{
  answered, settled, Election, Cluster, update, vote, first_calls, times_out, launches, delivers,
  counts, Reached, at_start, moves,
}
use nexus_mind.Raft.Elected.{one_leader}
use nexus_mind.Raft.Samples.{Bytes, plain, some_or, empty_disk, fresh, ask, no_vote}

-- Peer 0 of three times out, asks the others, and leads with the vote of peer 1.
abbrev late : Moment
late = record { now = 1_000_000_000; rand = 0 }

abbrev at_rest : Cluster ℕ Bytes
at_rest = record {
  peer = λ i. make plain 3 i empty_disk;
  elections = λ k. none;
  voted = λ i t. none;
}

abbrev standing : Cluster ℕ Bytes
standing = record at_rest {
  peer = update 0 ((election_tick plain late (at_rest.peer 0)).0) at_rest.peer;
  voted = vote 0 2 0 at_rest.voted;
}

abbrev election : Election
election = record {
  candidate = 0;
  term = 2;
  votes = 1;
  call = first_calls 0 ((1, ask 2 0) ∷ (2, ask 2 0) ∷ []);
}

abbrev asking : Cluster ℕ Bytes
asking = record standing { elections = update 0 (some election) standing.elections }

abbrev granting : Raft ℕ Bytes × RequestVoteReply
granting = some_or (request_vote plain late (ask 2 0) (asking.peer 1)) (fresh, no_vote)

abbrev answering : Cluster ℕ Bytes
answering = record {
  peer = update 1 (granting.0) asking.peer;
  elections =
      update 0 (some (record election { call = update 1 (answered (granting.1)) election.call }))
        asking.elections;
  voted = vote 1 2 0 asking.voted;
}

abbrev answered_election : Election
answered_election = record election { call = update 1 (answered (granting.1)) election.call }

abbrev elected : Cluster ℕ Bytes
elected = record answering {
  peer =
      update 0 ((ask_vote_reply plain 2 1 (some (granting.1)) (answering.peer 0)).0) answering.peer;
  elections =
      update 0
        (some (record answered_election {
          votes = 2;
          call = update 1 (settled true) answered_election.call;
        }))
        answering.elections;
}

elected-Reached : Reached plain 3 elected
unfolding make request_vote election_tick start_election ask_vote_reply last lookup
elected-Reached =
    moves
      (moves
        (moves
          (moves (at_start (λ i. empty_disk) (λ i. refl))
            (times_out 0 late (standing.peer 0) 2 refl refl))
          (launches 0 0 2 1 ((1, ask 2 0) ∷ (2, ask 2 0) ∷ []) refl refl refl))
        (delivers 0 1 late election (ask 2 0) (granting.1) (granting.0) refl refl refl refl))
      (counts 0 1 answered_election (granting.1) (elected.peer 0) 2 true refl refl refl refl)

one_leader_example : ◌≡◌ {A = ℕ} 0 0
unfolding make request_vote election_tick ask_vote_reply
one_leader_example = one_leader plain 3 0 0 elected-Reached refl refl refl
