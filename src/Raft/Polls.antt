-- ===== src/Raft/Polls.antt =====
-- src/raft/raft_election.go: each move of a cluster keeps its votes in order.
use mathlib.Core.Path.{subst}
use nexus_mind.Prelude.{
  ℕ, ◌≡◌, sym, ap, ◌∙◌, inl, inr, Bool, true, false, some, arith, if◌then◌else◌, ==_iff,
}
use nexus_mind.Prelude.Int.{pos}
use nexus_mind.Prelude.Dict.{Dict, nat_eq}
use nexus_mind.Raft.State.{Raft, Gob, Moment}
use nexus_mind.Raft.Election.{
  RequestVoteArgs, RequestVoteReply, request_vote, election_tick, ask_vote_reply, start_election,
}
use nexus_mind.Raft.Steps.{Step, votes, ticks, vote_ends, Step-IsDurable}
use nexus_mind.Raft.Votes.{request_vote_granted, request_vote_free, Step-Later}
use nexus_mind.Raft.Roles.{
  IsOther, Step-KeepsRole, request_vote-KeepsRole, election_tick-some, ask_vote_reply_lem,
}
use nexus_mind.Raft.Cluster.{asked, answered, settled, Election, Cluster, update, vote, first_calls}
use nexus_mind.Raft.Majority.{count_mono}
use nexus_mind.Raft.Ballots.{
  is_for, granted, for_some, settled_granted, vote-Grows, at-update, ElectionInv-Grows,
  answered-ElectionInv, settled-ElectionInv, elections-update,
}
use nexus_mind.Raft.Asking.{start_election_lem, first_calls-few}
use nexus_mind.Raft.Standing.{
  PeerInv, ClusterInv, backs-Grows, PeerInv-same, low-Later, PeerInv-step, fresh, PeerInv-vote,
}

module _ {C B : Type 0} (gob : Gob C B) (n : ℕ) (g : Cluster C B) (inv : ClusterInv gob n g) where
  pub others-ClusterInv :
      (i : ℕ) (r : Raft C B) (s : Step gob (g.peer i) r)
      → IsOther s
      → ClusterInv gob n (record g { peer = update i r g.peer })
  others-ClusterInv i r s o =
      let v = inv.peer i in
      record {
        peer =
            at-update (PeerInv gob n g.voted) i r g.peer
              (PeerInv-step gob n g.voted i (g.peer i) r v (Step-Later gob s v.durable)
                (Step-KeepsRole gob s o v.durable) (Step-IsDurable gob s v.durable))
              (λ j h. inv.peer j);
        election = inv.election;
      }

  pub times_out-ClusterInv :
      (i : ℕ) (m : Moment) (r : Raft C B) (term : ℕ)
      → election_tick gob m (g.peer i) ≡ (r, some term)
      → ClusterInv gob n (record g { peer = update i r g.peer; voted = vote i term i g.voted })
  times_out-ClusterInv i m r term h =
      let v = inv.peer i in
      let (me, peers, role, now, up, own) = election_tick-some gob m (g.peer i) r term h in
      let tick : Step gob (g.peer i) r = ticks m (ap (λ x. x.0) (sym h)) in
      let free = fresh gob n g.voted i (g.peer i) term v (inl (omega arith)) in
      let grows = vote-Grows i term i g.voted free in
      let later = Step-Later gob tick v.durable in
      record {
        peer =
            at-update (PeerInv gob n (vote i term i g.voted)) i r g.peer
              (record {
                me = me ∙ v.me;
                peers = peers ∙ v.peers;
                durable = Step-IsDurable gob tick v.durable;
                low =
                    PeerInv-vote gob n g.voted i (g.peer i) r term i v free later now
                      (own ∙ ap pos v.me);
                own = λ _. ground (arith, now);
                lead = λ q. absurd (ground (arith, q, role));
              })
              (λ j k.
                PeerInv-same gob n g.voted (vote i term i g.voted) j (g.peer j) grows
                  (λ t. ground (arith, k)) (inv.peer j));
        election = λ k e q.
            ElectionInv-Grows n g.voted (vote i term i g.voted) e grows (inv.election k e q);
      }

  pub delivers-ClusterInv :
      (k p : ℕ) (m : Moment) (e : Election) (args : RequestVoteArgs) (reply : RequestVoteReply)
      (r : Raft C B) (g' : Cluster C B)
      → g.elections k ≡ some e
      → e.call p ≡ asked args
      → request_vote gob m args (g.peer p) ≡ some (r, reply)
      → (b : Bool) → reply.vote_granted ≡ b
      → g' ≡ record {
        peer = update p r g.peer;
        elections =
            update k (some (record e { call = update p (answered reply) e.call })) g.elections;
        voted = if b then vote p args.term args.candidate_id g.voted else g.voted;
      }
      → ClusterInv gob n g'
  delivers-ClusterInv k p m e args reply r g' at_k ask h true yes_vote q =
      let v = inv.peer p in
      let s : Step gob (g.peer p) r = votes m args reply h in
      let keeps = request_vote-KeepsRole gob m args (g.peer p) r reply h in
      let (now, own) = request_vote_granted gob m args (g.peer p) r reply h yes_vote in
      let free =
        fresh gob n g.voted p (g.peer p) args.term v
          (request_vote_free gob m args (g.peer p) r reply h yes_vote) in
      let voted' = vote p args.term args.candidate_id g.voted in
      let grows = vote-Grows p args.term args.candidate_id g.voted free in
      let later = Step-Later gob s v.durable in
      let ev = inv.election k e at_k in
      let (inside, same_term, same_candidate) = ev.requests p args ask in
      let there : voted' p e.term ≡ some e.candidate =
        ground (arith, same_term, same_candidate, ==_iff p p, ==_iff args.term e.term) in
      subst (ClusterInv gob n) (sym q) (record {
        peer =
            at-update (PeerInv gob n voted') p r g.peer
              (record {
                me = keeps.me ∙ v.me;
                peers = keeps.peers ∙ v.peers;
                durable = Step-IsDurable gob s v.durable;
                low =
                    PeerInv-vote gob n g.voted p (g.peer p) r args.term args.candidate_id v free
                      later now own;
                own = λ x.
                    grows p r.current_term p
                      (ap (g.voted p) ((keeps.candidate x).1) ∙ v.own ((keeps.candidate x).0));
                lead = λ x.
                    backs-Grows gob n p r.current_term g.voted voted' grows
                      (rw ((keeps.leader x).1) (v.lead ((keeps.leader x).0)));
              })
              (λ j d.
                PeerInv-same gob n g.voted voted' j (g.peer j) grows (λ t. ground (arith, d))
                  (inv.peer j));
        election =
            elections-update n voted' k (record e { call = update p (answered reply) e.call })
              g.elections
              (answered-ElectionInv n voted' e p args reply
                (ElectionInv-Grows n g.voted voted' e grows ev) ask (λ _. there))
              (λ j x t. ElectionInv-Grows n g.voted voted' x grows (inv.election j x t));
      })
  delivers-ClusterInv k p m e args reply r g' at_k ask h false no_vote q =
      let v = inv.peer p in
      let s : Step gob (g.peer p) r = votes m args reply h in
      let ev = inv.election k e at_k in
      subst (ClusterInv gob n) (sym q) (record {
        peer =
            at-update (PeerInv gob n g.voted) p r g.peer
              (PeerInv-step gob n g.voted p (g.peer p) r v (Step-Later gob s v.durable)
                (request_vote-KeepsRole gob m args (g.peer p) r reply h)
                (Step-IsDurable gob s v.durable))
              (λ j d. inv.peer j);
        election =
            elections-update n g.voted k (record e { call = update p (answered reply) e.call })
              g.elections
              (answered-ElectionInv n g.voted e p args reply ev ask
                (λ x. absurd (ground (arith, x, no_vote))))
              inv.election;
      })

  pub counts-ClusterInv :
      (k p : ℕ) (e : Election) (reply : RequestVoteReply) (r : Raft C B) (votes' : ℕ) (go : Bool)
      → g.elections k ≡ some e
      → e.call p ≡ answered reply
      → ask_vote_reply gob e.term e.votes (some reply) (g.peer e.candidate) ≡ (r, votes', go)
      → ClusterInv gob n (record g {
        peer = update e.candidate r g.peer;
        elections =
            update k
              (some
                (record e { votes = votes'; call = update p (settled reply.vote_granted) e.call }))
              g.elections;
      })
  counts-ClusterInv k p e reply r votes' go at_k ans h =
      let c = e.candidate in
      let v = inv.peer c in
      let ev = inv.election k e at_k in
      let (me, peers, cand, lead, more) =
        ask_vote_reply_lem gob e.term e.votes reply (g.peer c) r votes' go h in
      let s : Step gob (g.peer c) r =
        vote_ends e.term e.votes (some reply) (ap (λ x. x.0) (sym h)) in
      let after = settled-ElectionInv n g.voted e p reply votes' ev ans more in
      record {
        peer =
            at-update (PeerInv gob n g.voted) c r g.peer
              (record {
                me = me ∙ v.me;
                peers = peers ∙ v.peers;
                durable = Step-IsDurable gob s v.durable;
                low = λ t d x.
                    low-Later gob n (g.peer c) r t d (Step-Later gob s v.durable) (v.low t d x);
                own = λ x. ap (g.voted c) ((cand x).1) ∙ v.own ((cand x).0);
                lead = λ x. elim (lead x) [
                  | inl y ↦ rw (y.1) (v.lead (y.0))
                  | inr y ↦ rw (y.0) (
                      omega (
                        arith,
                        y.1,
                        v.peers,
                        after.few,
                        count_mono n (λ q. granted (update p (settled reply.vote_granted) e.call q))
                            (λ q. is_for c (g.voted q e.term))
                            (λ q z. for_some c (g.voted q e.term) (
                              after.given q (
                                settled_granted (update p (settled reply.vote_granted) e.call q)
                                  z))),
                      ))
                ];
              })
              (λ j d. inv.peer j);
        election =
            elections-update n g.voted k
              (record e { votes = votes'; call = update p (settled reply.vote_granted) e.call })
              g.elections after inv.election;
      }

  pub launches-ClusterInv :
      (i k term count' : ℕ) (requests : Dict ℕ RequestVoteArgs)
      → start_election term (g.peer i) ≡ some (some (count', requests))
      → ClusterInv gob n (record g {
        elections =
            update k
              (some (record {
                candidate = i;
                term = term;
                votes = count';
                call = first_calls i requests;
              }))
              g.elections;
      })
  launches-ClusterInv i k term count' requests h =
      let v = inv.peer i in
      let (role, now, few, sent) = start_election_lem term (g.peer i) count' requests h in
      let e : Election = record {
        candidate = i;
        term = term;
        votes = count';
        call = first_calls i requests;
      } in
      record {
        peer = inv.peer;
        election =
            elections-update n g.voted k e g.elections
              (record {
                few = first_calls-few n i count' requests (rw (v.me, v.peers) at few);
                requests = λ p args q. ground (arith, q, v.me, v.peers, sent p args);
                replies = λ p reply q. absurd (ground (arith, q));
                given = λ p q.
                    let k : i ≡ p = ground (arith, q, ==_iff i p) in
                    subst (λ x. g.voted x term ≡ some i) k (ap (g.voted i) (sym now) ∙ v.own role);
              })
              inv.election;
      }
