-- ===== src/Raft/Elected.antt =====
-- src/raft/raft_election.go: at most one leader in each term.
use mathlib.Core.Path.{subst}
use nexus_mind.Prelude.{ℕ, ◌/◌, ◌<◌, ◌≡◌, refl, sym, ◌∙◌, arith, some-inj}
use nexus_mind.Prelude.Dict.{nat_eq}
use nexus_mind.Raft.State.{Gob, Persister, follower, leader, make, read_persist}
use nexus_mind.Raft.Election.{}
use nexus_mind.Raft.Durable.{make-fresh}
use nexus_mind.Raft.Cluster.{
  Cluster, Move, others, times_out, launches, delivers, counts, Reached, at_start, moves,
}
use nexus_mind.Raft.Majority.{count, overlap}
use nexus_mind.Raft.Ballots.{is_for, is_for-some}
use nexus_mind.Raft.Standing.{ClusterInv}
use nexus_mind.Raft.Polls.{
  others-ClusterInv, times_out-ClusterInv, delivers-ClusterInv, counts-ClusterInv,
  launches-ClusterInv,
}

module _ {C B : Type 0} (gob : Gob C B) (n : ℕ) where
  Move-ClusterInv : {g g' : Cluster C B} → Move gob g g' → ClusterInv gob n g → ClusterInv gob n g'
  Move-ClusterInv {g} (others i r s o q) inv =
      subst (ClusterInv gob n) (sym q) (others-ClusterInv gob n g inv i r s o)
  Move-ClusterInv {g} (times_out i m r term h q) inv =
      subst (ClusterInv gob n) (sym q) (times_out-ClusterInv gob n g inv i m r term h)
  Move-ClusterInv {g} (launches i k term count' requests _ h q) inv =
      subst (ClusterInv gob n) (sym q) (launches-ClusterInv gob n g inv i k term count' requests h)
  Move-ClusterInv {g} {g'} (delivers k p m e args reply r a b h q) inv =
      delivers-ClusterInv gob n g inv k p m e args reply r g' a b h reply.vote_granted refl q
  Move-ClusterInv {g} (counts k p e reply r votes' go a b h q) inv =
      subst (ClusterInv gob n) (sym q) (counts-ClusterInv gob n g inv k p e reply r votes' go a b h)

  make_start :
      (i : ℕ) (ps : Persister B)
      → gob.len ps.raftstate ≡ 0
      → ((make gob n i ps).me ≡ i)
        × ((make gob n i ps).peers ≡ n)
        × ((make gob n i ps).role ≡ follower)
  unfolding make read_persist
  make_start i ps e = ground arith

  Reached-ClusterInv : {g : Cluster C B} → Reached gob n g → ClusterInv gob n g
  Reached-ClusterInv (at_start ps z) = record {
    peer = λ i. record {
      me = (make_start i (ps i) (z i)).0;
      peers = (make_start i (ps i) (z i)).1;
      durable = make-fresh gob n i (ps i) (z i);
      low = λ t c h. absurd (ground (arith, h));
      own = λ h. absurd (ground (arith, h, make_start i (ps i) (z i)));
      lead = λ h. absurd (ground (arith, h, make_start i (ps i) (z i)));
    };
    election = λ k e h. absurd (ground (arith, h));
  }
  Reached-ClusterInv (moves x m) = Move-ClusterInv m (Reached-ClusterInv x)

  -- Whatever moves a group of peers has made since all were started over empty storage, elections
  -- at the same time, messages lost or late, crashes and restarts included: two peers that are
  -- leaders in the same term are the same peer.
  pub one_leader :
      {g : Cluster C B} (i j : ℕ)
      → Reached gob n g
      → (g.peer i).role ≡ leader
      → (g.peer j).role ≡ leader
      → (g.peer i).current_term ≡ (g.peer j).current_term
      → i ≡ j
  one_leader {g} i j x li lj e =
      let inv = Reached-ClusterInv x in
      let t = (g.peer i).current_term in
      let a = (inv.peer i).lead li in
      let b : n / 2 < count n (λ p. is_for j (g.voted p t)) = rw e ((inv.peer j).lead lj) in
      let (p, u, w) =
        overlap n (λ p. is_for i (g.voted p t)) (λ p. is_for j (g.voted p t))
          (omega (arith, a, b)) in
      some-inj i j (sym (is_for-some i (g.voted p t) u) ∙ is_for-some j (g.voted p t) w)
