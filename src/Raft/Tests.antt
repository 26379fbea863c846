-- ===== src/Raft/Tests.antt =====
-- src/raft/: the theorems at small runs of a group of three peers.
use Prim.Native.Nat.{max}
use nexus_mind.Prelude.{
  ℕ, ◌+◌, ◌*◌, ◌≤◌, ◌<◌, ◌≡◌, refl, ◌↔◌, ◌⊎◌, true, false, none, some, List, [], ◌∷◌, arith, length,
  get_elem?,
}
use nexus_mind.Prelude.Int.{pos, minus_one}
use nexus_mind.Prelude.Dict.{nat_eq}
use nexus_mind.Prelude.Sort.{count_ge}
use nexus_mind.Raft.Samples.{Bytes, plain, some_or, empty_disk, fresh, start_time, ask, no_vote}
use nexus_mind.Raft.Log.{LogEntry, RaftLog, size, at, last, do_snapshot, first_for, mock_entry}
use nexus_mind.Raft.Log.Reads.{do_snapshot_lem, first_for_lem}
use nexus_mind.Raft.State.{Raft, Value, follower, leader, make}
use nexus_mind.Raft.Election.{RequestVoteReply, request_vote}
use nexus_mind.Raft.Replication.{
  AppendEntriesArgs, AppendEntriesReply, append_entries, append_reply,
}
use nexus_mind.Raft.Compaction.{InstallSnapshotArgs, install_snapshot}
use nexus_mind.Raft.Application.{
  command_msg, snapshot_msg, entries, pending, apply_collect, apply_messages, apply_finish,
}
use nexus_mind.Raft.Durable.{make-fresh}
use nexus_mind.Raft.Steps.{votes, crashes, here, next, Steps-recover}
use nexus_mind.Raft.Votes.{vote_once, request_vote_iff}
use nexus_mind.Raft.Matching.{append_entries_accepted, stale_append_loses}
use nexus_mind.Raft.Commit.{append_reply_commit, truncated_follower_stuck}
use nexus_mind.Raft.Applying.{apply_messages_committed, snapshot_overtaken}
use nexus_mind.Raft.Panics.{handlers_total}
use nexus_mind.Raft.Cluster.{}

abbrev voted : Raft ℕ Bytes × RequestVoteReply
voted = some_or (request_vote plain start_time (ask 2 1) fresh) (fresh, no_vote)

abbrev restarted : Raft ℕ Bytes
restarted = make plain 3 0 (voted.0).persister

abbrev voted_again : Raft ℕ Bytes × RequestVoteReply
voted_again = some_or (request_vote plain start_time (ask 3 2) restarted) (fresh, no_vote)

abbrev entry : ℕ → ℕ → LogEntry ℕ
entry term c = record { term = term; command_valid = true; command = some c }

abbrev append : ℕ → ℕ → ℕ → List (LogEntry ℕ) → AppendEntriesArgs ℕ
append term prev prev_term es = record {
  term = term;
  leader_id = 1;
  prev_log_index = prev;
  prev_log_term = prev_term;
  entries = es;
  leader_commit = 2;
}

vote_once_example : (ask 2 1).term < (ask 3 2).term
unfolding make request_vote
vote_once_example =
    vote_once plain start_time start_time (ask 2 1) (ask 3 2) voted.1 voted_again.1 fresh voted.0
      restarted voted_again.0 (make-fresh plain 3 0 empty_disk refl) refl refl
      (next here (crashes refl)) refl refl

Steps-recover_example :
    ((make plain 3 0 (voted.0).persister).current_term ≡ (voted.0).current_term)
    × ((make plain 3 0 (voted.0).persister).voted_for ≡ (voted.0).voted_for)
    × ((make plain 3 0 (voted.0).persister).log ≡ (voted.0).log)
unfolding make request_vote
Steps-recover_example =
    Steps-recover plain 3 0 empty_disk refl (next here (votes start_time (ask 2 1) voted.1 refl))

request_vote_iff_example : (voted.1.vote_granted ≡ true) ↔ (
    (fresh.current_term ≤ 2)
    × ((fresh.current_term < 2) ⊎ (fresh.voted_for ≡ minus_one))
    × ((◌<◌ 0 0) ⊎ ((◌≡◌ {A = ℕ} 0 0) × (◌≤◌ 0 0))))
unfolding make request_vote last
request_vote_iff_example =
    request_vote_iff plain start_time (ask 2 1) fresh voted.0 voted.1 0 0 refl refl

handlers_total_example :
    ((p : Raft ℕ Bytes × RequestVoteReply) × (request_vote plain start_time (ask 5 2) fresh
        ≡ some p))
    × ((q : Raft ℕ Bytes × AppendEntriesReply) × (append_entries plain start_time
            (append 5 4 1 [])
            fresh
          ≡ some q))
handlers_total_example =
    handlers_total plain 3 0 empty_disk start_time (ask 5 2) (append 5 4 1 []) refl here

-- The leader's two entries, accepted by a fresh follower.
abbrev two : AppendEntriesArgs ℕ
two = append 2 0 0 (entry 2 7 ∷ entry 2 8 ∷ [])

abbrev no_reply : AppendEntriesReply
no_reply = record { term = 0; success = false; conflict_index = 0; conflict_term = 0 }

abbrev fed : Raft ℕ Bytes × AppendEntriesReply
fed = some_or (append_entries plain start_time two fresh) (fresh, no_reply)

append_entries_accepted_example :
    (e : LogEntry ℕ) × (at fresh.log 0 ≡ some e)
    × (e.term ≡ 0)
    × (size (fed.0).log ≡ two.prev_log_index + 1 + length two.entries)
    × (at (fed.0).log 0 ≡ at fresh.log 0)
    × (at (fed.0).log (two.prev_log_index + 1 + 1) ≡ some (entry 2 8))
    × ((fed.0).current_term ≡ 2)
    × ((fed.0).commit_index ≡ max fresh.commit_index 2)
unfolding make append_entries
append_entries_accepted_example =
    append_entries_accepted plain start_time two fresh fed.0 fed.1 0 1 refl refl (omega arith)

-- An entry that does not match, at the follower with the two entries.
abbrev refused : Raft ℕ Bytes × AppendEntriesReply
refused = some_or (append_entries plain start_time (append 2 1 1 []) fed.0) (fresh, no_reply)

-- The first of the two entries once more, late: the second one is committed.
abbrev stale : AppendEntriesArgs ℕ
stale = append 2 0 0 (entry 2 7 ∷ [])

stale_append_loses_example :
    (r' : Raft ℕ Bytes) × (reply : AppendEntriesReply) × (append_entries plain start_time stale
        fed.0
      ≡ some (r', reply))
    × (reply.success ≡ true)
    × (at r'.log (fed.0).commit_index ≡ none)
    × (r'.commit_index ≡ max (fed.0).commit_index 2)
unfolding make append_entries
stale_append_loses_example =
    stale_append_loses plain start_time stale fed.0 (mock_entry 0) refl refl refl (omega arith)

-- A leader of term 2 with one entry that it alone is known to hold.
abbrev led : Raft ℕ Bytes
led = record {
  peers = 3;
  persister = empty_disk;
  me = 0;
  dead = false;
  role = leader;
  current_term = 2;
  voted_for = pos 0;
  log = record {
    snap_last_idx = 0;
    snap_last_term = 0;
    snapshot = [];
    tail_log = mock_entry 0 ∷ entry 2 7 ∷ [];
  };
  next_index = 2 ∷ 1 ∷ 1 ∷ [];
  match_index = 1 ∷ 0 ∷ 0 ∷ [];
  commit_index = 0;
  last_applied = 0;
  snap_pending = false;
  election_start = 0;
  election_timeout = 0;
}

abbrev success : AppendEntriesReply
success = record { term = 2; success = true; conflict_index = 0; conflict_term = 0 }

abbrev acked : Raft ℕ Bytes
acked = some_or (append_reply plain 1 2 (append 2 0 0 (entry 2 7 ∷ [])) (some success) led) led

acked_commits : acked.commit_index ≡ 1
unfolding append_reply
acked_commits = refl

append_reply_commit_example :
    (acked.commit_index ≡ led.commit_index)
    ⊎ ((e : LogEntry ℕ) × (led.commit_index < acked.commit_index)
        × (at acked.log acked.commit_index ≡ some e)
        × (e.term ≡ acked.current_term)
        × (acked.peers < 2 * count_ge acked.commit_index acked.match_index))
unfolding append_reply
append_reply_commit_example =
    append_reply_commit plain 1 2 (append 2 0 0 (entry 2 7 ∷ [])) (some success) led acked refl refl

-- A follower that has cut its log at index 1, and a leader that tries to append after index 0.
abbrev cut : Raft ℕ Bytes
cut = record led {
  role = follower;
  log = record {
    snap_last_idx = 1;
    snap_last_term = 2;
    snapshot = [];
    tail_log = mock_entry 2 ∷ [];
  };
}

abbrev cut_refused : Raft ℕ Bytes × AppendEntriesReply
cut_refused = some_or (append_entries plain start_time (append 2 0 0 []) cut) (fresh, no_reply)

abbrev probing : Raft ℕ Bytes
probing = some_or (append_reply plain 1 2 (append 2 0 0 []) (some (cut_refused.1)) led) led

truncated_follower_stuck_example :
    (n : ℕ) × ((cut_refused.1).success ≡ false)
    × ((cut_refused.1).conflict_index ≡ 1)
    × ((cut_refused.0).log ≡ cut.log)
    × (get_elem? probing.next_index 1 ≡ some n)
    × (n ≤ 1)
    × (probing.match_index ≡ led.match_index)
unfolding append_entries append_reply mock_entry
truncated_follower_stuck_example =
    truncated_follower_stuck plain start_time (append 2 0 0 []) cut cut_refused.0 led probing
      cut_refused.1 1 (omega arith) (omega arith) refl refl refl refl refl

-- The log of the leader, cut at its entry 1 or searched for the first entry of term 2.
do_snapshot_lem_example :
    (e : LogEntry ℕ) × (rl' : RaftLog ℕ Bytes) × (at (fed.0).log 1 ≡ some e)
    × (do_snapshot (fed.0).log 1 [] ≡ some rl')
    × (rl'.snap_last_idx ≡ 1)
    × (rl'.snap_last_term ≡ e.term)
    × (at rl' 1 ≡ some (mock_entry e.term))
    × (at rl' 2 ≡ at (fed.0).log 2)
    × (size rl' ≡ size (fed.0).log)
unfolding make append_entries size
do_snapshot_lem_example =
    do_snapshot_lem (fed.0).log 1 [] 2 (omega arith) (omega arith) (omega arith)

first_for_lem_example :
    (f : LogEntry ℕ) × (at (fed.0).log (first_for (fed.0).log 2) ≡ some f)
    × (f.term ≡ 2)
    × (0 ≤ first_for (fed.0).log 2)
    × (first_for (fed.0).log 2 ≤ 2)
unfolding make append_entries at
first_for_lem_example = first_for_lem (fed.0).log 2 0 2 (entry 2 8) (omega arith) refl refl

-- The round that applies the two entries.
abbrev collected : Raft ℕ Bytes
collected = (some_or (apply_collect (fed.0)) (fed.0, pending)).0

apply_messages_committed_example :
    (get_elem? (apply_messages collected (entries (entry 2 7 ∷ entry 2 8 ∷ []))) 1
      ≡ some (command_msg true (some 8) (max 0 0 + 1 + 1)))
    × (at (fed.0).log (max 0 0 + 1 + 1) ≡ some (entry 2 8))
    × (max 0 0 + 1 + 1 ≤ (fed.0).commit_index)
unfolding make append_entries apply_collect
apply_messages_committed_example =
    apply_messages_committed (fed.0) collected collected (entry 2 7 ∷ entry 2 8 ∷ []) 1 (entry 2 8)
      refl refl refl

-- A snapshot that is pending when a newer one arrives.
abbrev newer : InstallSnapshotArgs Bytes
newer = record {
  term = 2;
  leader_id = 1;
  last_included_index = 5;
  last_included_term = 2;
  snapshot = Value.number 5 ∷ [];
}

abbrev waiting : Raft ℕ Bytes
waiting = record cut { snap_pending = true }

snapshot_overtaken_example :
    (apply_collect waiting ≡ some (waiting, pending))
    × (apply_messages waiting pending ≡ snapshot_msg [] 2 1 ∷ [])
    × ((apply_finish {C = ℕ} pending (install_snapshot plain newer waiting).0).snap_pending ≡ false)
    × ((apply_finish {C = ℕ} pending (install_snapshot plain newer waiting).0).last_applied ≡ 5)
    × ((apply_finish {C = ℕ} pending (install_snapshot plain newer waiting).0).log.snapshot
        ≡ Value.number 5 ∷ [])
snapshot_overtaken_example = snapshot_overtaken plain newer waiting refl (omega arith) (omega arith)
