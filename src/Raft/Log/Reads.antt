-- ===== src/Raft/Log/Reads.antt =====
-- src/raft/raft_log.go: what can be read from a log after each change of it.
use nexus_mind.Prelude.{
  ℕ, zero, suc, ◌+◌, ◌-◌, ◌≤◌, ◌<◌, ◌≡◌, refl, inl, inr, false, none, some, List, [], ◌∷◌, ◌++◌,
  arith, ◌==◌, length, get_elem?, take, drop, length-append, length-take, length-drop, get_elem?_ge,
  get_elem?_lt, get_elem?-take_lt, get_elem?-take_ge, get_elem?-drop, Bool-cases, sym, ◌∙◌,
}
use nexus_mind.Raft.Log.{
  LogEntry, RaftLog, size, idx, at, append_from, do_snapshot, first_for_from, first_for, mock_entry,
}

module _ {C B : Type 0} where
  pub at_below : (rl : RaftLog C B) (i : ℕ) → i < rl.snap_last_idx → at rl i ≡ none
  unfolding at idx
  at_below rl i h = ground arith

  pub at_ge : (rl : RaftLog C B) (i : ℕ) → size rl ≤ i → at rl i ≡ none
  unfolding at idx
  at_ge rl i h = ground arith

  -- From the snapshot on, the log reads as `tail_log`.
  pub at_from :
      (rl : RaftLog C B) (i : ℕ)
      → rl.snap_last_idx ≤ i
      → at rl i ≡ get_elem? rl.tail_log (i - rl.snap_last_idx)
  unfolding at idx size
  at_from rl i h = ground (arith, get_elem?_ge rl.tail_log (i - rl.snap_last_idx))

  -- An index of the log can be read.
  pub at_total :
      (rl : RaftLog C B) (i : ℕ)
      → rl.snap_last_idx ≤ i
      → i < size rl
      → (e : LogEntry C) × (at rl i ≡ some e)
  unfolding size
  at_total rl i h l =
      let (e, p) = get_elem?_lt rl.tail_log (i - rl.snap_last_idx) (omega arith) in
      (e, rw (at_from rl i h) p)

  pub at_bounds :
      (rl : RaftLog C B) (i : ℕ) (e : LogEntry C)
      → at rl i ≡ some e
      → (rl.snap_last_idx ≤ i) × (i < size rl)
  unfolding at idx
  at_bounds rl i e h = ground arith

  abbrev appended : RaftLog C B → ℕ → List (LogEntry C) → RaftLog C B
  appended rl prev es = record rl {
    tail_log = take (prev - rl.snap_last_idx + 1) rl.tail_log ++ es;
  }

  pub append_from_eq :
      (rl : RaftLog C B) (prev : ℕ) (es : List (LogEntry C))
      → rl.snap_last_idx ≤ prev
      → prev < size rl
      → append_from rl prev es ≡ some (appended rl prev es)
  unfolding append_from idx
  append_from_eq rl prev es h l = ground arith

  size-appended :
      (rl : RaftLog C B) (prev : ℕ) (es : List (LogEntry C))
      → rl.snap_last_idx ≤ prev
      → prev < size rl
      → size (appended rl prev es) ≡ prev + 1 + length es
  unfolding size
  size-appended rl prev es h l = omega (
    arith,
    length-append (take (prev - rl.snap_last_idx + 1) rl.tail_log) es,
    length-take (prev - rl.snap_last_idx + 1) rl.tail_log,
  )

  at-appended_old :
      (rl : RaftLog C B) (prev : ℕ) (es : List (LogEntry C)) (i : ℕ)
      → rl.snap_last_idx ≤ prev
      → prev < size rl
      → i ≤ prev
      → at (appended rl prev es) i ≡ at rl i
  unfolding size
  at-appended_old rl prev es i h l le = ground (
    arith,
    at_below rl i,
    at_below (appended rl prev es) i,
    at_from rl i,
    at_from (appended rl prev es) i,
    get_elem?-take_lt (prev - rl.snap_last_idx + 1) rl.tail_log es (i - rl.snap_last_idx),
  )

  at-appended_new :
      (rl : RaftLog C B) (prev : ℕ) (es : List (LogEntry C)) (k : ℕ)
      → rl.snap_last_idx ≤ prev
      → prev < size rl
      → at (appended rl prev es) (prev + 1 + k) ≡ get_elem? es k
  unfolding size
  at-appended_new rl prev es k h l =
      let n = prev - rl.snap_last_idx + 1 in
      let i = prev + 1 + k - rl.snap_last_idx in
      let e : i - n ≡ k = omega arith in
      rw (at_from (appended rl prev es) (prev + 1 + k) (omega arith))
        (rw (get_elem?-take_ge n rl.tail_log es i (omega arith) (omega arith)) (rw e))

  -- `appendFrom` at an index of the log never panics: the log then ends with the given entries, and
  -- what it holds up to that index is as before.
  pub append_from_lem :
      (rl : RaftLog C B) (prev : ℕ) (es : List (LogEntry C)) (i k : ℕ)
      → rl.snap_last_idx ≤ prev
      → prev < size rl
      → i ≤ prev
      → (rl' : RaftLog C B) × (append_from rl prev es ≡ some rl')
        × (size rl' ≡ prev + 1 + length es)
        × (at rl' i ≡ at rl i)
        × (at rl' (prev + 1 + k) ≡ get_elem? es k)
  append_from_lem rl prev es i k h l le = (
    appended rl prev es,
    append_from_eq rl prev es h l,
    size-appended rl prev es h l,
    at-appended_old rl prev es i h l le,
    at-appended_new rl prev es k h l,
  )

  abbrev compacted : RaftLog C B → ℕ → LogEntry C → B → RaftLog C B
  compacted rl index e snap = record {
    snap_last_idx = index;
    snap_last_term = e.term;
    snapshot = snap;
    tail_log =
        record { term = e.term; command_valid = false; command = none }
        ∷ drop (index - rl.snap_last_idx + 1) rl.tail_log;
  }

  do_snapshot_eq :
      (rl : RaftLog C B) (index : ℕ) (snap : B) (e : LogEntry C)
      → rl.snap_last_idx < index
      → at rl index ≡ some e
      → do_snapshot rl index snap ≡ some (compacted rl index e snap)
  unfolding do_snapshot at idx mock_entry
  do_snapshot_eq rl index snap e h p = ground arith

  at-compacted :
      (rl : RaftLog C B) (index : ℕ) (snap : B) (e : LogEntry C) (i : ℕ)
      → rl.snap_last_idx < index
      → index < i
      → at (compacted rl index e snap) i ≡ at rl i
  at-compacted rl index snap e i h l =
      let n = index - rl.snap_last_idx + 1 in
      let j = i - index - 1 in
      let p : i - index ≡ suc j = omega arith in
      let q : n + j ≡ i - rl.snap_last_idx = omega arith in
      rw (at_from (compacted rl index e snap) i (omega arith), at_from rl i (omega arith))
        (rw p (rw (get_elem?-drop n rl.tail_log j) (rw q)))

  -- A snapshot at an index of the log that is past the last one does not panic. It drops the
  -- entries up to the index, keeps the index's term, and neither the size nor any later entry
  -- changes.
  pub do_snapshot_lem :
      (rl : RaftLog C B) (index : ℕ) (snap : B) (i : ℕ)
      → rl.snap_last_idx < index
      → index < size rl
      → index < i
      → (e : LogEntry C) × (rl' : RaftLog C B) × (at rl index ≡ some e)
        × (do_snapshot rl index snap ≡ some rl')
        × (rl'.snap_last_idx ≡ index)
        × (rl'.snap_last_term ≡ e.term)
        × (at rl' index ≡ some (mock_entry e.term))
        × (at rl' i ≡ at rl i)
        × (size rl' ≡ size rl)
  unfolding size mock_entry
  do_snapshot_lem rl index snap i h l g =
      let (e, p) = at_total rl index (omega arith) l in
      let z : index - index ≡ 0 = omega arith in
      (
        e,
        compacted rl index e snap,
        p,
        do_snapshot_eq rl index snap e h p,
        refl,
        refl,
        rw (at_from (compacted rl index e snap) index (omega arith)) (rw z),
        at-compacted rl index snap e i h g,
        omega (arith, length-drop (index - rl.snap_last_idx + 1) rl.tail_log),
      )

-- Terms never fall along the entries, and start at `t` or later.
abbrev pub TermsFrom : {C : Type 0} → ℕ → List (LogEntry C) → Type 0
TermsFrom t [] = Unit {0}
TermsFrom t (e ∷ es) = (t ≤ e.term) × TermsFrom e.term es

TermsFrom-le :
    {C : Type 0} (t : ℕ) (es : List (LogEntry C)) (k : ℕ) (e : LogEntry C)
    → TermsFrom t es
    → get_elem? es k ≡ some e
    → t ≤ e.term
TermsFrom-le t [] k e s h = cc
TermsFrom-le t (x ∷ es) zero e s h = ground arith
TermsFrom-le t (x ∷ es) (suc k) e s h = omega (arith, s.0, TermsFrom-le x.term es k e s.1 h)

first_for_from_lem :
    {C : Type 0} (es : List (LogEntry C)) (i t lo k : ℕ) (e : LogEntry C)
    → TermsFrom lo es
    → get_elem? es k ≡ some e
    → e.term ≡ t
    → (j : ℕ) × (f : LogEntry C) × (first_for_from es i t ≡ i + j)
      × (j ≤ k)
      × (get_elem? es j ≡ some f)
      × (f.term ≡ t)
unfolding first_for_from
first_for_from_lem [] i t lo k e s h p = cc
first_for_from_lem (x ∷ es) i t lo zero e s h p =
    (0, x, ground arith, omega arith, refl, ground arith)
first_for_from_lem (x ∷ es) i t lo (suc k) e s h p = elim (Bool-cases (x.term == t)) [
  | inl hit ↦ (0, x, ground arith, omega arith, refl, ground arith)
  | inr miss ↦
      let (j, f, q, l, g, ft) = first_for_from_lem es (i + 1) t x.term k e s.1 h p in
      (suc j, f, ground (arith, TermsFrom-le x.term es k e s.1 h), omega arith, g, ft)
]

module _ {C B : Type 0} where
  -- In a log whose terms never fall, the search for a term that the log holds gives an index of it:
  -- the entry there has the term, and no entry before any given one of that term is passed over.
  pub first_for_lem :
      (rl : RaftLog C B) (t lo i : ℕ) (e : LogEntry C)
      → TermsFrom lo rl.tail_log
      → at rl i ≡ some e
      → e.term ≡ t
      → (f : LogEntry C) × (at rl (first_for rl t) ≡ some f)
        × (f.term ≡ t)
        × (rl.snap_last_idx ≤ first_for rl t)
        × (first_for rl t ≤ i)
  unfolding first_for
  first_for_lem rl t lo i e s h p =
      let (above, below) = at_bounds rl i e h in
      let read : get_elem? rl.tail_log (i - rl.snap_last_idx) ≡ some e =
        sym (at_from rl i above) ∙ h in
      let (j, f, q, l, g, ft) =
        first_for_from_lem rl.tail_log rl.snap_last_idx t lo (i - rl.snap_last_idx) e s read p in
      let d : rl.snap_last_idx + j - rl.snap_last_idx ≡ j = omega arith in
      (
        f,
        rw (q, at_from rl (rl.snap_last_idx + j) (omega arith), d) g,
        ft,
        omega arith,
        omega arith,
      )
