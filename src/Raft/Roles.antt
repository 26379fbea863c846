-- ===== src/Raft/Roles.antt =====
-- src/raft/: how a peer can come to be a candidate or a leader.
use nexus_mind.Prelude.{
  ℕ, zero, suc, ◌+◌, ◌/◌, ◌<◌, ◌≡◌, ◌⊎◌, inl, inr, Bool, true, none, some, List, ◌∷◌, arith, ◌==◌,
  ◌>>=◌, >>=-eq-some, Bool-cases,
}
use nexus_mind.Prelude.Int.{pos}
use nexus_mind.Raft.State.{Raft, Gob, Moment, candidate, leader, make, start}
use nexus_mind.Raft.Election.{
  RequestVoteArgs, RequestVoteReply, request_vote, election_tick, ask_vote_reply,
}
use nexus_mind.Raft.Replication.{
  append_entries, append_reply, start_replication, Send, replicate_from, message_for, own_index,
}
use nexus_mind.Raft.Compaction.{snapshot, install_snapshot, install_reply}
use nexus_mind.Raft.Application.{Batch, apply_collect, apply_finish}
use nexus_mind.Raft.Durable.{IsDurable, make-read}
use nexus_mind.Raft.Steps.{
  Step, votes, appends, installs, snapshots, starts, ticks, vote_ends, replicates, append_ends,
  install_ends, collects, finishes, crashes,
}

-- Not the part of a peer in an election.
abbrev pub IsOther : {C B : Type 0} {gob : Gob C B} {r r' : Raft C B} → Step gob r r' → Type 0
IsOther (votes m args reply h) = ⊥
IsOther (ticks m h) = ⊥
IsOther (vote_ends term count reply h) = ⊥
IsOther (appends m args reply h) = Unit {0}
IsOther (installs args h) = Unit {0}
IsOther (snapshots index bytes h) = Unit {0}
IsOther (starts command h) = Unit {0}
IsOther (replicates term sends go h) = Unit {0}
IsOther (append_ends peer term args reply h) = Unit {0}
IsOther (install_ends peer term args reply h) = Unit {0}
IsOther (collects b h) = Unit {0}
IsOther (finishes b h) = Unit {0}
IsOther (crashes h) = Unit {0}

-- The peer is the same, and it is a candidate or a leader only if it was so in the same term.
pub record KeepsRole {C B : Type 0} (r r' : Raft C B) : Type 0 where
  pub me : r'.me ≡ r.me
  pub peers : r'.peers ≡ r.peers
  pub candidate : r'.role ≡ candidate → (r.role ≡ candidate) × (r'.current_term ≡ r.current_term)
  pub leader : r'.role ≡ leader → (r.role ≡ leader) × (r'.current_term ≡ r.current_term)

-- What a round of replication leaves alone.
record SameRole {C B : Type 0} (r r' : Raft C B) : Type 0 where
  me : r'.me ≡ r.me
  peers : r'.peers ≡ r.peers
  role : r'.role ≡ r.role
  term : r'.current_term ≡ r.current_term

SameRole-KeepsRole : {C B : Type 0} (r r' : Raft C B) → SameRole r r' → KeepsRole r r'
SameRole-KeepsRole r r' s = record {
  me = s.me;
  peers = s.peers;
  candidate = λ e. ground (arith, e);
  leader = λ e. ground (arith, e);
}

module _ {C B : Type 0} where
  replicate_from-SameRole :
      (n peer : ℕ) (r r' : Raft C B) (sends : List (Send C B))
      → replicate_from n peer r ≡ some (r', sends)
      → SameRole r r'
  unfolding replicate_from
  replicate_from-SameRole zero peer r r' sends h = ground arith
  replicate_from-SameRole (suc n) peer r r' sends h = elim (Bool-cases (peer == r.me)) [
    | inl mine ↦
        let same =
          replicate_from-SameRole n (peer + 1) (own_index peer r) r' sends
            (rw (mine, replicate_from) at h) in
        unfold own_index in ground (arith, same)
    | inr other ↦
        let rest = replicate_from n (peer + 1) r in
        let h' : (message_for peer r >>= λ s. rest >>= λ p. some (p.0, s ∷ p.1))
            ≡ some (r', sends) =
          rw (other, replicate_from) at h in
        let (s, _, h2) = >>=-eq-some (message_for peer r) _ h' in
        let (p, hp, h3) = >>=-eq-some rest _ h2 in
        ground (arith, replicate_from-SameRole n (peer + 1) r p.0 p.1 hp)
  ]

  start_replication-SameRole :
      (term : ℕ) (r r' : Raft C B) (sends : List (Send C B)) (go : Bool)
      → start_replication term r ≡ some (r', sends, go)
      → SameRole r r'
  unfolding start_replication
  start_replication-SameRole term r r' sends go h =
      ground (arith, replicate_from-SameRole r.peers 0 r r' sends)

module _ {C B : Type 0} (gob : Gob C B) where
  pub Step-KeepsRole :
      {r r' : Raft C B} (s : Step gob r r') → IsOther s → IsDurable gob r → KeepsRole r r'
  unfolding append_entries install_snapshot snapshot start append_reply install_reply apply_collect
  Step-KeepsRole (votes m args reply h) o d = elim o [ ]
  Step-KeepsRole (ticks m h) o d = elim o [ ]
  Step-KeepsRole (vote_ends term count reply h) o d = elim o [ ]
  Step-KeepsRole (appends m args reply h) o d = ground arith
  Step-KeepsRole (installs args h) o d = ground arith
  Step-KeepsRole (snapshots index bytes h) o d = ground arith
  Step-KeepsRole (starts command h) o d = ground arith
  Step-KeepsRole {r} {r'} (replicates term sends go h) o d =
      SameRole-KeepsRole r r' (start_replication-SameRole term r r' sends go h)
  Step-KeepsRole (append_ends peer term args none h) o d = ground arith
  Step-KeepsRole (append_ends peer term args (some reply) h) o d = ground arith
  Step-KeepsRole (install_ends peer term args none h) o d = ground arith
  Step-KeepsRole (install_ends peer term args (some reply) h) o d = ground arith
  Step-KeepsRole (collects b h) o d = ground arith
  Step-KeepsRole {r} {r'} (finishes (Batch.entries es) h) o d =
      unfold apply_finish in ground (arith, h)
  Step-KeepsRole {r} {r'} (finishes Batch.pending h) o d = unfold apply_finish in ground (arith, h)
  Step-KeepsRole {r} (crashes h) o d =
      unfold make in ground (arith, h, make-read gob r r.peers r.me d)

  pub request_vote-KeepsRole :
      (m : Moment) (args : RequestVoteArgs) (r r' : Raft C B) (reply : RequestVoteReply)
      → request_vote gob m args r ≡ some (r', reply)
      → KeepsRole r r'
  unfolding request_vote
  request_vote-KeepsRole m args r r' reply h = ground arith

  -- The ticker makes a candidate that has voted for itself in a new term, or changes nothing.
  pub election_tick-some :
      (m : Moment) (r r' : Raft C B) (term : ℕ)
      → election_tick gob m r ≡ (r', some term)
      → (r'.me ≡ r.me)
        × (r'.peers ≡ r.peers)
        × (r'.role ≡ candidate)
        × (r'.current_term ≡ term)
        × (term ≡ r.current_term + 1)
        × (r'.voted_for ≡ pos r.me)
  unfolding election_tick
  election_tick-some m r r' term h = ground arith

  -- The answer to a call: a leader is one that was so in this term, or a candidate of the term of the
  -- election that has more than half of the peers with this vote.
  pub ask_vote_reply_lem :
      (term count : ℕ) (reply : RequestVoteReply) (r r' : Raft C B) (count' : ℕ) (go : Bool)
      → ask_vote_reply gob term count (some reply) r ≡ (r', count', go)
      → (r'.me ≡ r.me)
        × (r'.peers ≡ r.peers)
        × (r'.role ≡ candidate → (r.role ≡ candidate) × (r'.current_term ≡ r.current_term))
        × (r'.role ≡ leader
            → ((r.role ≡ leader) × (r'.current_term ≡ r.current_term))
              ⊎ ((r'.current_term ≡ term) × (r.peers / 2 < count')))
        × ((count' ≡ count) ⊎ ((count' ≡ count + 1) × (reply.vote_granted ≡ true)))
  unfolding ask_vote_reply
  ask_vote_reply_lem term count reply r r' count' go h = ground arith
