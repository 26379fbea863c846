-- ===== src/Raft/Log.antt =====
-- src/raft/raft_log.go: the log of a peer, a snapshot and the entries after it. Indices are
-- logical, counted from the start of the history; `none` is a panic (an index out of range).
pub mod Reads
use nexus_mind.Prelude.{
  ℕ, zero, suc, ◌+◌, ◌-◌, ◌≤◌, ◌<◌, ◌≡◌, Bool, true, false, ◌||◌, Option, none, some, List, [], ◌∷◌,
  ◌++◌, ltb, leb, ◌==◌, if◌then◌else◌, ◌>>=◌, length, get_elem?, take, drop,
}

-- The command is nil in the entry that stands for the snapshot.
pub record LogEntry (C : Type 0) : Type 0 where
  pub term : ℕ
  pub command_valid : Bool
  pub command : Option C

-- The head of `tail_log` stands for the entry at `snap_last_idx`.
pub record RaftLog (C B : Type 0) : Type 0 where
  pub snap_last_idx : ℕ
  pub snap_last_term : ℕ
  pub snapshot : B
  pub tail_log : List (LogEntry C)

abbrev pub invalid_index : ℕ
invalid_index = 0

abbrev pub invalid_term : ℕ
invalid_term = 0

-- `LogEntry{Term: t}`.
unfoldable pub mock_entry : {C : Type 0} → ℕ → LogEntry C
mock_entry t = record { term = t; command_valid = false; command = none }

unfoldable pub first_for_from : {C : Type 0} → List (LogEntry C) → ℕ → ℕ → ℕ
first_for_from [] i t = invalid_index
first_for_from (e ∷ es) i t =
    if e.term == t then i else if ltb t e.term then invalid_index else first_for_from es (i + 1) t

module _ {C B : Type 0} where
  unfoldable pub new_log : ℕ → ℕ → B → List (LogEntry C) → RaftLog C B
  unfolding mock_entry
  new_log idx term snapshot entries = record {
    snap_last_idx = idx;
    snap_last_term = term;
    snapshot = snapshot;
    tail_log = mock_entry term ∷ entries;
  }

  unfoldable pub size : RaftLog C B → ℕ
  size rl = rl.snap_last_idx + length rl.tail_log

  unfoldable pub idx : RaftLog C B → ℕ → Option ℕ
  unfolding size
  idx rl i = if ltb i rl.snap_last_idx || leb (size rl) i then none else some (i - rl.snap_last_idx)

  unfoldable pub at : RaftLog C B → ℕ → Option (LogEntry C)
  unfolding idx
  at rl i = idx rl i >>= λ k. get_elem? rl.tail_log k

  -- The index and the term of the last entry; it panics on an empty `tail_log`.
  unfoldable pub last : RaftLog C B → Option (ℕ × ℕ)
  last rl =
      let i = length rl.tail_log - 1 in
      get_elem? rl.tail_log i >>= λ e. some (rl.snap_last_idx + i, e.term)

  unfoldable pub first_for : RaftLog C B → ℕ → ℕ
  unfolding first_for_from
  first_for rl t = first_for_from rl.tail_log rl.snap_last_idx t

  unfoldable pub tail : RaftLog C B → ℕ → Option (List (LogEntry C))
  unfolding size idx
  tail rl start =
      if leb (size rl) start then some [] else (idx rl start >>= λ k. some (drop k rl.tail_log))

  unfoldable pub append : RaftLog C B → LogEntry C → RaftLog C B
  append rl e = record rl { tail_log = rl.tail_log ++ e ∷ [] }

  unfoldable pub append_from : RaftLog C B → ℕ → List (LogEntry C) → Option (RaftLog C B)
  unfolding idx
  append_from rl prev entries =
      idx rl prev >>= λ k. some (record rl { tail_log = take (k + 1) rl.tail_log ++ entries })

  unfoldable pub do_snapshot : RaftLog C B → ℕ → B → Option (RaftLog C B)
  unfolding idx mock_entry
  do_snapshot rl index snapshot = if leb index rl.snap_last_idx then some rl else do
    k ← idx rl index
    e ← get_elem? rl.tail_log k
    some (record {
      snap_last_idx = index;
      snap_last_term = e.term;
      snapshot = snapshot;
      tail_log = mock_entry e.term ∷ drop (k + 1) rl.tail_log;
    })

  unfoldable pub install_snapshot_log : RaftLog C B → ℕ → ℕ → B → RaftLog C B
  unfolding mock_entry
  install_snapshot_log rl index term snapshot = record rl {
    snap_last_idx = index;
    snap_last_term = term;
    snapshot = snapshot;
    tail_log = mock_entry term ∷ [];
  }
