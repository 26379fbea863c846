-- ===== src/Raft/Standing.antt =====
-- src/raft/: what the votes say of a peer that is a candidate or a leader.

use nexus_mind.Prelude.{
  ℕ, ◌/◌, ◌<◌, ◌≡◌, sym, ap, ◌∙◌, ◌⊎◌, inl, inr, none, some, Option-cases, arith, ==_iff,
}
use nexus_mind.Prelude.Int.{pos, minus_one}
use nexus_mind.Prelude.Dict.{nat_eq}
use nexus_mind.Raft.State.{Raft, Gob, candidate, leader}
use nexus_mind.Raft.Election.{}
use nexus_mind.Raft.Durable.{IsDurable}
use nexus_mind.Raft.Votes.{Later}
use nexus_mind.Raft.Roles.{KeepsRole}
use nexus_mind.Raft.Cluster.{Election, Cluster, vote}
use nexus_mind.Raft.Majority.{count, count_mono}
use nexus_mind.Raft.Ballots.{Voted, is_for, is_for-some, Grows, ElectionInv}

module _ {C B : Type 0} (gob : Gob C B) (n : ℕ) where
  -- A peer: its votes are remembered, a candidate has its own, and a leader those of a majority.
  pub record PeerInv (voted : Voted) (i : ℕ) (r : Raft C B) : Type 0 where
    pub me : r.me ≡ i
    pub peers : r.peers ≡ n
    pub durable : IsDurable gob r
    pub low :
        (t c : ℕ)
        → voted i t ≡ some c
        → (t < r.current_term) ⊎ ((t ≡ r.current_term) × (r.voted_for ≡ pos c))
    pub own : r.role ≡ candidate → voted i r.current_term ≡ some i
    pub lead : r.role ≡ leader → n / 2 < count n (λ p. is_for i (voted p r.current_term))

  pub record ClusterInv (g : Cluster C B) : Type 0 where
    pub peer : (i : ℕ) → PeerInv g.voted i (g.peer i)
    pub election : (k : ℕ) (e : Election) → g.elections k ≡ some e → ElectionInv n g.voted e

  pub backs-Grows :
      (i t : ℕ) (f g : Voted)
      → Grows f g
      → n / 2 < count n (λ p. is_for i (f p t))
      → n / 2 < count n (λ p. is_for i (g p t))
  backs-Grows i t f g k h = omega (
    arith,
    count_mono n (λ p. is_for i (f p t)) (λ p. is_for i (g p t))
        λ p q. let s = k p t i (is_for-some i (f p t) q) in ground (arith, s),
  )

  -- Another peer's vote does not touch this one.
  pub PeerInv-same :
      (f g : Voted) (i : ℕ) (r : Raft C B)
      → Grows f g
      → ((t : ℕ) → g i t ≡ f i t)
      → PeerInv f i r
      → PeerInv g i r
  PeerInv-same f g i r k same v = record {
    me = v.me;
    peers = v.peers;
    durable = v.durable;
    low = λ t c h. v.low t c (sym (same t) ∙ h);
    own = λ h. same r.current_term ∙ v.own h;
    lead = λ h. backs-Grows i r.current_term f g k (v.lead h);
  }

  pub low-Later :
      (r r' : Raft C B) (t c : ℕ)
      → Later r r'
      → (t < r.current_term) ⊎ ((t ≡ r.current_term) × (r.voted_for ≡ pos c))
      → (t < r'.current_term) ⊎ ((t ≡ r'.current_term) × (r'.voted_for ≡ pos c))
  low-Later r r' t c l h = ground arith

  -- A step that is no part of an election.
  pub PeerInv-step :
      (f : Voted) (i : ℕ) (r r' : Raft C B)
      → PeerInv f i r
      → Later r r'
      → KeepsRole r r'
      → IsDurable gob r'
      → PeerInv f i r'
  PeerInv-step f i r r' v l k d = record {
    me = k.me ∙ v.me;
    peers = k.peers ∙ v.peers;
    durable = d;
    low = λ t c h. low-Later r r' t c l (v.low t c h);
    own = λ h. ap (f i) ((k.candidate h).1) ∙ v.own ((k.candidate h).0);
    lead = λ h. rw ((k.leader h).1) (v.lead ((k.leader h).0));
  }

  -- No vote is remembered for a term in which the peer is still free to vote.
  pub fresh :
      (f : Voted) (i : ℕ) (r : Raft C B) (term : ℕ)
      → PeerInv f i r
      → (r.current_term < term) ⊎ ((r.current_term ≡ term) × (r.voted_for ≡ minus_one))
      → f i term ≡ none
  fresh f i r term v h = elim (Option-cases (f i term)) [
    | inl e ↦ e
    | inr (c, e) ↦ absurd (ground (arith, v.low term c e, h))
  ]

  -- The peer that votes in a term it has come to.
  pub PeerInv-vote :
      (f : Voted) (i : ℕ) (r r' : Raft C B) (term c : ℕ)
      → PeerInv f i r
      → f i term ≡ none
      → Later r r'
      → r'.current_term ≡ term
      → r'.voted_for ≡ pos c
      → (t d : ℕ) → vote i term c f i t ≡ some d
      → (t < r'.current_term) ⊎ ((t ≡ r'.current_term) × (r'.voted_for ≡ pos d))
  PeerInv-vote f i r r' term c v none_yet l e w t d h =
      ground (arith, ==_iff term t, h, e, w, v.low t d, low-Later r r' t d l)
