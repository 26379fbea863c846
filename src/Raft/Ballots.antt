-- ===== src/Raft/Ballots.antt =====
-- src/raft/raft_election.go: the votes that peers give, and those that an election counts.
use mathlib.Core.Path.{subst}
use nexus_mind.Prelude.{
  ℕ, ◌+◌, ◌<◌, ◌≤◌, ◌≡◌, ◌≢◌, sym, ap, ◌∙◌, ◌⊎◌, inl, inr, Bool, true, false, Option, none, some,
  Bool-cases, arith, if◌then◌else◌, ◌==◌, ==_iff, some-inj,
}
use nexus_mind.Prelude.Dict.{nat_eq}
use nexus_mind.Raft.Election.{RequestVoteArgs, RequestVoteReply}
use nexus_mind.Raft.Cluster.{Call, unasked, asked, answered, settled, Election, update, vote}
use nexus_mind.Raft.Majority.{count, count_mono, count_more}

abbrev pub Voted : Type 0
Voted = ℕ → ℕ → Option ℕ

abbrev pub is_for : ℕ → Option ℕ → Bool
is_for c none = false
is_for c (some d) = c == d

pub is_for-some : (c : ℕ) (o : Option ℕ) → is_for c o ≡ true → o ≡ some c
is_for-some c o h = ground (arith, h)

abbrev pub granted : Call → Bool
granted unasked = false
granted (asked args) = false
granted (answered reply) = false
granted (settled b) = b

pub for_some : (c : ℕ) (o : Option ℕ) → o ≡ some c → is_for c o ≡ true
for_some c o h = ground (arith, h, ==_iff c c)

pub settled_granted : (c : Call) → granted c ≡ true → c ≡ settled true
settled_granted c h = ground (arith, h)

-- A vote that was given is not given again.
abbrev pub Grows : Voted → Voted → Type 0
Grows f g = (i t c : ℕ) → f i t ≡ some c → g i t ≡ some c

pub vote-Grows : (i t c : ℕ) (f : Voted) → f i t ≡ none → Grows f (vote i t c f)
vote-Grows i t c f h j u d e = elim (Bool-cases (i == j)) [
  | inr q ↦ ground (arith, q, e)
  | inl q ↦ elim (Bool-cases (t == u)) [
    | inr k ↦ ground (arith, q, k, e)
    | inl k ↦
        let z : f j u ≡ none =
          ap (λ x. f x u) (sym ((==_iff i j).0 q)) ∙ ap (f i) (sym ((==_iff t u).0 k)) ∙ h in
        absurd (ground (arith, z, e))
  ]
]

pub at-update :
    {A : Type 0} (P : ℕ → A → Type 0) (k : ℕ) (a : A) (f : ℕ → A)
    → P k a
    → ((j : ℕ) → k ≢ j → P j (f j))
    → (j : ℕ) → P j (update k a f j)
at-update P k a f p h j = elim (Bool-cases (k == j)) [
  | inl q ↦
      subst (λ b. P j (if b then a else f j)) (sym q) (subst (λ i. P i a) ((==_iff k j).0 q) p)
  | inr q ↦ subst (λ b. P j (if b then a else f j)) (sym q) (h j (λ e. ground (arith, q, e)))
]

-- The calls of an election: its votes are no more than the calls that were granted, and a granted
-- one stands for a vote that the peer has given.
pub record ElectionInv (n : ℕ) (voted : Voted) (e : Election) : Type 0 where
  pub few : e.votes ≤ count n (λ p. granted (e.call p))
  pub requests :
      (p : ℕ) (args : RequestVoteArgs)
      → e.call p ≡ asked args
      → (p < n) × (args.term ≡ e.term) × (args.candidate_id ≡ e.candidate)
  pub replies :
      (p : ℕ) (reply : RequestVoteReply)
      → e.call p ≡ answered reply
      → (p < n) × (reply.vote_granted ≡ true → voted p e.term ≡ some e.candidate)
  pub given : (p : ℕ) → e.call p ≡ settled true → voted p e.term ≡ some e.candidate

pub ElectionInv-Grows :
    (n : ℕ) (f g : Voted) (e : Election) → Grows f g → ElectionInv n f e → ElectionInv n g e
ElectionInv-Grows n f g e k v = record {
  few = v.few;
  requests = v.requests;
  replies = λ p reply h.
      ((v.replies p reply h).0, λ q. k p e.term e.candidate ((v.replies p reply h).1 q));
  given = λ p h. k p e.term e.candidate (v.given p h);
}

-- An answer arrives, with the vote that it stands for.
pub answered-ElectionInv :
    (n : ℕ) (f : Voted) (e : Election) (p : ℕ) (args : RequestVoteArgs) (reply : RequestVoteReply)
    → ElectionInv n f e
    → e.call p ≡ asked args
    → (reply.vote_granted ≡ true → f p e.term ≡ some e.candidate)
    → ElectionInv n f (record e { call = update p (answered reply) e.call })
answered-ElectionInv n f e p args reply v a w =
    let more : (q : ℕ)
        → granted (e.call q) ≡ true
        → granted (update p (answered reply) e.call q) ≡ true =
      λ q h. elim (Bool-cases (p == q)) [
        | inl s ↦ absurd (ground (arith, h, ap e.call ((==_iff p q).0 s), a))
        | inr s ↦ ground (arith, h, s)
      ] in
    record {
      few = omega (
        arith,
        v.few,
        count_mono n (λ q. granted (e.call q)) (λ q. granted (update p (answered reply) e.call q))
            more,
      );
      requests = λ q b h. ground (arith, h, v.requests q b);
      replies = λ q b h. elim (Bool-cases (p == q)) [
        | inl s ↦
            let k : p ≡ q = (==_iff p q).0 s in
            let r : reply ≡ b = ground (arith, h, s) in
            subst (λ x. (x < n) × (b.vote_granted ≡ true → f x e.term ≡ some e.candidate)) k
              (
                (v.requests p args a).0,
                subst
                    (λ (x : RequestVoteReply).
                      x.vote_granted ≡ true → f p e.term ≡ some e.candidate)
                    r w,
              )
        | inr s ↦ v.replies q b (ground (arith, h, s))
      ];
      given = λ q h. ground (arith, h, v.given q);
    }

-- An answer is counted.
pub settled-ElectionInv :
    (n : ℕ) (f : Voted) (e : Election) (p : ℕ) (reply : RequestVoteReply) (votes' : ℕ)
    → ElectionInv n f e
    → e.call p ≡ answered reply
    → (votes' ≡ e.votes) ⊎ ((votes' ≡ e.votes + 1) × (reply.vote_granted ≡ true))
    → ElectionInv n f
        (record e { votes = votes'; call = update p (settled reply.vote_granted) e.call })
settled-ElectionInv n f e p reply votes' v a w =
    let after = λ (q : ℕ). granted (update p (settled reply.vote_granted) e.call q) in
    let more : (q : ℕ) → granted (e.call q) ≡ true → after q ≡ true = λ q h.
      elim (Bool-cases (p == q)) [
        | inl s ↦ absurd (ground (arith, h, ap e.call ((==_iff p q).0 s), a))
        | inr s ↦ ground (arith, h, s)
      ] in
    record {
      few = elim w [
        | inl s ↦ omega (arith, v.few, s, count_mono n (λ q. granted (e.call q)) after more)
        | inr s ↦ omega (
          arith,
          v.few,
          s.0,
          count_more n p (λ q. granted (e.call q)) after ((v.replies p reply a).0)
              (ground (arith, a)) (ground (arith, s.1, ==_iff p p)) more,
        )
      ];
      requests = λ q b h. ground (arith, h, v.requests q b);
      replies = λ q b h. ground (arith, h, v.replies q b);
      given = λ q h. elim (Bool-cases (p == q)) [
        | inl s ↦
            let yes_vote : reply.vote_granted ≡ true = ground (arith, h, s) in
            subst (λ x. f x e.term ≡ some e.candidate) ((==_iff p q).0 s)
              ((v.replies p reply a).1 yes_vote)
        | inr s ↦ v.given q (ground (arith, h, s))
      ];
    }

pub elections-update :
    (n : ℕ) (f : Voted) (k : ℕ) (e : Election) (es : ℕ → Option Election)
    → ElectionInv n f e
    → ((j : ℕ) (x : Election) → es j ≡ some x → ElectionInv n f x)
    → (j : ℕ) (x : Election) → update k (some e) es j ≡ some x
    → ElectionInv n f x
elections-update n f k e es v h j x q = elim (Bool-cases (k == j)) [
  | inl s ↦ subst (ElectionInv n f) (some-inj e x (ground (arith, q, s))) v
  | inr s ↦ h j x (ground (arith, q, s))
]
