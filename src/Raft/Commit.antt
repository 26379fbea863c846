-- ===== src/Raft/Commit.antt =====
-- src/raft/raft_replication.go: what the leader learns from the answer to an append.
use nexus_mind.Prelude.{
  ℕ, zero, suc, ◌+◌, ◌-◌, ◌*◌, ◌/◌, ◌≤◌, ◌<◌, ◌≡◌, refl, ◌⊎◌, inl, inr, false, Option, none, some,
  List, [], arith, length, get_elem?, ltb, >>=-eq-some, get_elem?-set_self, length-set, replicate,
  length-replicate, Bool-cases, ◌∷◌, ap, Option-cases, ◌&&◌, ◌==◌,
}
use nexus_mind.Prelude.Sort.{count_ge, count_ge_nth, sort_ints, length-sort_ints}
use nexus_mind.Raft.Log.{LogEntry, at}
use nexus_mind.Raft.State.{Raft, Gob, Moment, leader}
use nexus_mind.Raft.Replication.{
  AppendEntriesArgs, AppendEntriesReply, append_entries, append_reply, update_commit, set_match,
  get_majority_index_locked, copy_slice, probe_lower, probe_index,
}

get_elem?-length : (xs : List ℕ) (i v : ℕ) → get_elem? xs i ≡ some v → i < length xs
get_elem?-length [] i v h = cc
get_elem?-length (x ∷ xs) zero v h = omega arith
get_elem?-length (x ∷ xs) (suc i) v h = omega (arith, get_elem?-length xs i v h)

-- `copy` into a slice of the same length replaces it.
copy_slice-eq : (dst src : List ℕ) → length dst ≡ length src → copy_slice dst src ≡ src
unfolding copy_slice
copy_slice-eq [] [] h = refl
copy_slice-eq [] (y ∷ ys) h = absurd (omega arith)
copy_slice-eq (x ∷ xs) [] h = absurd (omega arith)
copy_slice-eq (x ∷ xs) (y ∷ ys) h = ap (◌∷◌ y) (copy_slice-eq xs ys (omega arith))

module _ {C B : Type 0} where
  -- More than half of the peers have a match index no lower than the majority index.
  majority_index_quorum :
      (r : Raft C B) (m : ℕ)
      → length r.match_index ≡ r.peers
      → get_majority_index_locked r ≡ some m
      → r.peers < 2 * count_ge m r.match_index
  unfolding get_majority_index_locked
  majority_index_quorum r m w h =
      let xs = copy_slice (replicate r.peers 0) r.match_index in
      let same : xs ≡ r.match_index =
        copy_slice-eq (replicate r.peers 0) r.match_index
          (omega (arith, length-replicate r.peers (zero))) in
      let h' : get_elem? (sort_ints r.match_index) ((r.peers - 1) / 2) ≡ some m = rw same at h in
      omega (
        arith,
        count_ge_nth r.match_index ((r.peers - 1) / 2) m h',
        get_elem?-length (sort_ints r.match_index) ((r.peers - 1) / 2) m h',
        length-sort_ints r.match_index,
      )

  update_commit_lem :
      (r r' : Raft C B)
      → length r.match_index ≡ r.peers
      → update_commit r ≡ some r'
      → (r' ≡ r)
        ⊎ ((e : LogEntry C) × (r.commit_index < r'.commit_index)
            × (at r'.log r'.commit_index ≡ some e)
            × (e.term ≡ r'.current_term)
            × (r'.peers < 2 * count_ge r'.commit_index r'.match_index))
  unfolding update_commit
  update_commit_lem r r' w h =
      let (m, hm, h1) = >>=-eq-some (get_majority_index_locked r) _ h in
      let quorum = majority_index_quorum r m w hm in
      elim (Option-cases (at r.log m)) [
        | inl n ↦ inl (ground arith)
        | inr (e, q) ↦ elim (Bool-cases (ltb r.commit_index m && e.term == r.current_term)) [
          | inl up ↦ inr (e, ground arith, ground arith, ground arith, ground arith)
          | inr down ↦ inl (ground arith)
        ]
      ]

module _ {C B : Type 0} (gob : Gob C B) where
  -- With a match index for each peer, the answer to an append moves the commit index only up, and
  -- only to an entry of the leader's own term that is in its log and that more than half of the
  -- peers are known to hold.
  pub append_reply_commit :
      (peer term : ℕ) (args : AppendEntriesArgs C) (reply : Option AppendEntriesReply)
      (r r' : Raft C B)
      → length r.match_index ≡ r.peers
      → append_reply gob peer term args reply r ≡ some r'
      → (r'.commit_index ≡ r.commit_index)
        ⊎ ((e : LogEntry C) × (r.commit_index < r'.commit_index)
            × (at r'.log r'.commit_index ≡ some e)
            × (e.term ≡ r'.current_term)
            × (r'.peers < 2 * count_ge r'.commit_index r'.match_index))
  unfolding append_reply
  append_reply_commit peer term args none r r' w h = inl (ground arith)
  append_reply_commit peer term args (some reply) r r' w h =
      let acked = set_match r peer (args.prev_log_index + length args.entries) in
      ground (
        arith,
        length-set r.match_index peer (args.prev_log_index + length args.entries),
        update_commit_lem acked r',
      )

  -- A refusal never raises the index that the leader tries next.
  probe_lower_le :
      (peer next : ℕ) (reply : AppendEntriesReply) (r r' : Raft C B)
      → get_elem? r.next_index peer ≡ some next
      → probe_lower peer reply r ≡ some r'
      → (n : ℕ) × (get_elem? r'.next_index peer ≡ some n) × (n ≤ next)
  unfolding probe_lower
  probe_lower_le peer next reply r r' e h = (
    probe_index r reply next,
    ground (
      arith,
      get_elem?-set_self r.next_index peer (probe_index r reply next)
          (get_elem?-length r.next_index peer next e),
    ),
    unfold probe_index in ground arith,
  )

  truncated_refused :
      (m : Moment) (args : AppendEntriesArgs C) (f f' : Raft C B) (reply : AppendEntriesReply)
      → f.current_term ≤ args.term
      → args.prev_log_index < f.log.snap_last_idx
      → append_entries gob m args f ≡ some (f', reply)
      → (reply.success ≡ false)
        × (reply.conflict_index ≡ f.log.snap_last_idx)
        × (f'.log ≡ f.log)
        × (reply.term ≡ f.current_term)
  unfolding append_entries
  truncated_refused m args f f' reply t lo h = ground arith

  refused_probes :
      (args : AppendEntriesArgs C) (l l' : Raft C B) (reply : AppendEntriesReply) (peer term : ℕ)
      → reply.success ≡ false
      → reply.term ≤ l.current_term
      → l.role ≡ leader
      → l.current_term ≡ term
      → append_reply gob peer term args (some reply) l ≡ some l'
      → probe_lower peer reply l ≡ some l'
  unfolding append_reply
  refused_probes args l l' reply peer term no_success t role lt h = ground arith

  -- A follower whose snapshot covers the entry before the new ones refuses the append and names its
  -- snapshot's index; a leader of that term that takes this answer does not raise its next index
  -- for the follower, nor its match index.
  pub truncated_follower_stuck :
      (m : Moment) (args : AppendEntriesArgs C) (f f' l l' : Raft C B) (reply : AppendEntriesReply)
      (peer : ℕ)
      → f.current_term ≤ args.term
      → args.prev_log_index < f.log.snap_last_idx
      → append_entries gob m args f ≡ some (f', reply)
      → l.role ≡ leader
      → l.current_term ≡ args.term
      → get_elem? l.next_index peer ≡ some (args.prev_log_index + 1)
      → append_reply gob peer args.term args (some reply) l ≡ some l'
      → (n : ℕ) × (reply.success ≡ false)
        × (reply.conflict_index ≡ f.log.snap_last_idx)
        × (f'.log ≡ f.log)
        × (get_elem? l'.next_index peer ≡ some n)
        × (n ≤ args.prev_log_index + 1)
        × (l'.match_index ≡ l.match_index)
  truncated_follower_stuck m args f f' l l' reply peer t lo h role lt ne h' =
      let (no_success, index, log, rt) = truncated_refused m args f f' reply t lo h in
      let probe =
        refused_probes args l l' reply peer args.term no_success (omega arith) role lt h' in
      let (n, at_n, le) = probe_lower_le peer (args.prev_log_index + 1) reply l l' ne probe in
      (n, no_success, index, log, at_n, le, unfold probe_lower in ground arith)
