-- ===== src/Raft/Asking.antt =====
-- src/raft/raft_election.go: whom an election asks.

use nexus_mind.Prelude.{
  ℕ, zero, suc, ◌+◌, ◌<◌, ◌≤◌, ◌≡◌, ap, ◌∙◌, inl, inr, false, some, Bool-cases, Option-cases, arith,
  if◌then◌else◌, leb, ltb, ltb→lt, ◌&&◌, ◌==◌, ==_iff,
}
use nexus_mind.Prelude.Dict.{Dict, nat_eq, lookup}
use nexus_mind.Raft.State.{Raft, candidate, is_candidate, context_lost_locked}
use nexus_mind.Raft.Log.{last}
use nexus_mind.Raft.Election.{RequestVoteArgs, start_election, ask_peers}
use nexus_mind.Raft.Cluster.{first_calls}
use nexus_mind.Raft.Majority.{count, count-mem}
use nexus_mind.Raft.Ballots.{granted}

-- The requests of an election go to peers of the cluster, with the candidate's term and name.
pub ask_peers_lem :
    (m peer me : ℕ) (args : RequestVoteArgs) (count : ℕ)
    → ((ask_peers m peer me args count).0
        ≤ (if leb peer me && ltb me (peer + m) then count + 1 else count))
      × ((p : ℕ) (b : RequestVoteArgs)
          → lookup p ((ask_peers m peer me args count).1) ≡ some b
          → (b ≡ args) × (p < peer + m))
unfolding ask_peers lookup
ask_peers_lem zero peer me args count = (ground arith, λ p b h. absurd (ground (arith, h)))
ask_peers_lem (suc m) peer me args count = elim (Bool-cases (peer == me)) [
  | inl s ↦
      let ih = ask_peers_lem m (peer + 1) me args (count + 1) in
      (ground (arith, s, ih.0), λ p b h. ground (arith, s, h, ih.1 p b))
  | inr s ↦
      let ih = ask_peers_lem m (peer + 1) me args count in
      (
        ground (arith, s, ih.0, ==_iff peer me),
        λ p b h. ground (arith, s, h, ih.1 p b, ==_iff peer p),
      )
]

pub held_by :
    {C B : Type 0} (r : Raft C B) (term : ℕ)
    → context_lost_locked r candidate term ≡ false
    → (r.role ≡ candidate) × (r.current_term ≡ term)
unfolding context_lost_locked is_candidate
held_by r term h = ground (arith, h)

pub start_election_lem :
    {C B : Type 0} (term : ℕ) (r : Raft C B) (n : ℕ) (requests : Dict ℕ RequestVoteArgs)
    → start_election term r ≡ some (some (n, requests))
    → (r.role ≡ candidate)
      × (r.current_term ≡ term)
      × (n ≤ (if ltb r.me r.peers then 1 else 0))
      × ((p : ℕ) (b : RequestVoteArgs)
          → lookup p requests ≡ some b
          → (p < r.peers) × (b.term ≡ term) × (b.candidate_id ≡ r.me))
unfolding start_election
start_election_lem term r n requests h = elim (Bool-cases (context_lost_locked r candidate term)) [
  | inl lost ↦ absurd (ground (arith, h, lost))
  | inr held ↦ (elim (Option-cases (last r.log)) [
    | inl e ↦ absurd (ground (arith, h, held, e))
    | inr (l, e) ↦
        let args : RequestVoteArgs = record {
          term = r.current_term;
          candidate_id = r.me;
          last_log_index = l.0;
          last_log_term = l.1;
        } in
        let ask = ask_peers_lem r.peers 0 r.me args 0 in
        let same : ask_peers r.peers 0 r.me args 0 ≡ (n, requests) = ground (arith, h, held, e) in
        let (role, now) = held_by r term held in
        (
          role,
          now,
          ground (arith, ask.0, ap (λ x. x.0) same),
          λ p b q. ground (arith, now, ask.1 p b (ap (λ x. lookup p (x.1)) same ∙ q)),
        )
  ])
]

pub first_calls-few :
    (n i count' : ℕ) (requests : Dict ℕ RequestVoteArgs)
    → count' ≤ (if ltb i n then 1 else 0)
    → count' ≤ count n (λ p. granted (first_calls i requests p))
first_calls-few n i count' requests h = elim (Bool-cases (ltb i n)) [
  | inl s ↦ omega (
    arith,
    rw s at h,
    count-mem n i (λ p. granted (first_calls i requests p)) (ltb→lt i n s)
        (ground (arith, ==_iff i i)),
  )
  | inr s ↦ ground (arith, s, h)
]
