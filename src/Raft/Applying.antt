-- ===== src/Raft/Applying.antt =====
-- src/raft/raft_application.go: what the service is handed.
use Prim.Native.Nat.{max}
use nexus_mind.Prelude.{
  ℕ, zero, suc, ◌+◌, ◌-◌, ◌≤◌, ◌<◌, ◌≡◌, true, false, some, List, [], ◌∷◌, arith, length, get_elem?,
  >>=-eq-some, sym, some-inj,
}
use nexus_mind.Raft.Log.{LogEntry, at}
use nexus_mind.Raft.State.{Raft, Gob}
use nexus_mind.Raft.Compaction.{InstallSnapshotArgs, install_snapshot}
use nexus_mind.Raft.Application.{
  command_msg, snapshot_msg, entries, pending, entries_from, apply_end, apply_collect,
  number_entries, apply_messages, apply_finish,
}

module _ {C B : Type 0} where
  entries_from-read :
      (r : Raft C B) (n i k : ℕ) (es : List (LogEntry C)) (e : LogEntry C)
      → entries_from r n i ≡ some es
      → get_elem? es k ≡ some e
      → (at r.log (i + k) ≡ some e) × (k < n)
  unfolding entries_from
  entries_from-read r zero i k es e h g = absurd (ground arith)
  entries_from-read r (suc n) i zero es e h g =
      let (x, hx, h1) = >>=-eq-some (at r.log i) _ h in
      let (xs, hxs, h2) = >>=-eq-some (entries_from r n (i + 1)) _ h1 in
      let z : i + 0 ≡ i = omega arith in (rw z (ground arith), omega arith)
  entries_from-read r (suc n) i (suc k) es e h g =
      let (x, hx, h1) = >>=-eq-some (at r.log i) _ h in
      let (xs, hxs, h2) = >>=-eq-some (entries_from r n (i + 1)) _ h1 in
      let same : es ≡ x ∷ xs = sym (some-inj _ _ h2) in
      let (p, q) = entries_from-read r n (i + 1) k xs e hxs (rw same at g) in
      let z : i + suc k ≡ i + 1 + k = omega arith in (rw z p, omega arith)

  entries_from-length :
      (r : Raft C B) (n i : ℕ) (es : List (LogEntry C))
      → entries_from r n i ≡ some es
      → length es ≡ n
  unfolding entries_from
  entries_from-length r zero i es h = ground arith
  entries_from-length r (suc n) i es h =
      let (x, hx, h1) = >>=-eq-some (at r.log i) _ h in
      let (xs, hxs, h2) = >>=-eq-some (entries_from r n (i + 1)) _ h1 in
      ground (arith, entries_from-length r n (i + 1) xs hxs)

  get_elem?-number_entries :
      (es : List (LogEntry C)) (i k : ℕ) (e : LogEntry C)
      → get_elem? es k ≡ some e
      → get_elem? (number_entries {C = C} {B = B} es i) k
        ≡ some (command_msg e.command_valid e.command (i + k))
  unfolding number_entries
  get_elem?-number_entries [] i k e h = cc
  get_elem?-number_entries (x ∷ es) i zero e h =
      let z : i + 0 ≡ i = omega arith in rw z (ground arith)
  get_elem?-number_entries (x ∷ es) i (suc k) e h =
      let z : i + suc k ≡ i + 1 + k = omega arith in
      rw z (get_elem?-number_entries es (i + 1) k e h)

  apply_collect_entries :
      (r r' : Raft C B) (es : List (LogEntry C))
      → apply_collect r ≡ some (r', entries es)
      → (entries_from r' (apply_end r' - r'.last_applied) (r'.last_applied + 1) ≡ some es)
        × (r'.log ≡ r.log)
        × (r'.commit_index ≡ r.commit_index)
        × (r'.last_applied ≡ max r.last_applied r.log.snap_last_idx)
  unfolding apply_collect
  apply_collect_entries r r' es h = ground arith

  apply_end-le : (r : Raft C B) → apply_end r ≤ r.commit_index
  unfolding apply_end
  apply_end-le r = ground arith

  -- The messages of a round of the apply loop carry the entries of the log at the indices that they
  -- name, which follow the last applied one without a gap and are committed, if no other handler
  -- has changed the last applied index since the entries were collected.
  pub apply_messages_committed :
      (r r' s : Raft C B) (es : List (LogEntry C)) (k : ℕ) (e : LogEntry C)
      → apply_collect r ≡ some (r', entries es)
      → s.last_applied ≡ r'.last_applied
      → get_elem? es k ≡ some e
      → let i = max r.last_applied r.log.snap_last_idx + 1 + k in
        (get_elem? (apply_messages s (entries es)) k
          ≡ some (command_msg e.command_valid e.command i))
        × (at r.log i ≡ some e)
        × (i ≤ r.commit_index)
  unfolding apply_messages
  apply_messages_committed r r' s es k e h same g =
      let (from, log, commit, last) = apply_collect_entries r r' es h in
      let (p, q) =
        entries_from-read r' (apply_end r' - r'.last_applied) (r'.last_applied + 1) k es e from g in
      (
        rw (← last, ← same) (get_elem?-number_entries es (s.last_applied + 1) k e g),
        rw (← last, ← log) p,
        omega (arith, apply_end-le r'),
      )

  -- A round with no snapshot pending brings the last applied index up to the commit index, or to
  -- the end of the log if that comes first, and never lowers it.
  pub apply_finish_progress :
      (r r' : Raft C B) (es : List (LogEntry C))
      → apply_collect r ≡ some (r', entries es)
      → (apply_finish (entries es) r').last_applied
        ≡ max (max r.last_applied r.log.snap_last_idx) (apply_end r)
  unfolding apply_finish
  apply_finish_progress r r' es h =
      let (from, log, commit, last) = apply_collect_entries r r' es h in
      let end : apply_end r' ≡ apply_end r = unfold apply_end in ground arith in
      omega (
        arith,
        entries_from-length r' (apply_end r' - r'.last_applied) (r'.last_applied + 1) es from,
      )

module _ {C B : Type 0} (gob : Gob C B) where
  -- If a newer snapshot is installed between the message with a pending snapshot and the end of
  -- that round, then the round counts the newer one as applied and clears the flag, although the
  -- message carried the older one.
  pub snapshot_overtaken :
      (args : InstallSnapshotArgs B) (r : Raft C B)
      → r.snap_pending ≡ true
      → r.current_term ≤ args.term
      → r.log.snap_last_idx < args.last_included_index
      → let s = apply_finish pending (install_snapshot gob args r).0 in
        (apply_collect r ≡ some (r, pending))
        × (apply_messages r pending
            ≡ snapshot_msg r.log.snapshot r.log.snap_last_term r.log.snap_last_idx ∷ [])
        × (s.snap_pending ≡ false)
        × (s.last_applied ≡ args.last_included_index)
        × (s.log.snapshot ≡ args.snapshot)
  unfolding apply_finish install_snapshot apply_messages apply_collect
  snapshot_overtaken args r p t l = ground arith
