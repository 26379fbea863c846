-- ===== src/Raft/Application.antt =====
-- src/raft/raft_application.go: one round of `applicationTicker`. It takes the lock twice, and
-- sends to the service between the two without it, so a round is three steps and other handlers may
-- run before the second and the third.
use nexus_mind.Prelude.{
  ℕ, zero, suc, ◌+◌, ◌-◌, Bool, false, Option, some, List, [], ◌∷◌, ltb, leb, if◌then◌else◌, ◌>>=◌,
  length,
}
use nexus_mind.Raft.Log.{LogEntry, size, at}
use nexus_mind.Raft.State.{Raft}

pub data ApplyMsg (C B : Type 0) : Type 0 where
  command_msg : Bool → Option C → ℕ → ApplyMsg C B
  snapshot_msg : B → ℕ → ℕ → ApplyMsg C B

-- What the first step leaves in the ticker's local variables: the entries, or a pending snapshot.
pub data Batch (C : Type 0) : Type 0 where
  entries : List (LogEntry C) → Batch C
  pending : Batch C

module _ {C B : Type 0} where
  -- The entries at `i`, `i + 1`, …, `n` of them.
  unfoldable pub entries_from : Raft C B → ℕ → ℕ → Option (List (LogEntry C))
  unfolding at
  entries_from r zero i = some []
  entries_from r (suc n) i = at r.log i >>= λ e. entries_from r n (i + 1) >>= λ es. some (e ∷ es)

  -- The last index to apply: the commit index, or the end of the log before it.
  unfoldable pub apply_end : Raft C B → ℕ
  unfolding size
  apply_end r = if leb (size r.log) r.commit_index then size r.log - 1 else r.commit_index

  unfoldable pub apply_collect : Raft C B → Option (Raft C B × Batch C)
  unfolding entries_from apply_end
  apply_collect r =
      if r.snap_pending
      then some (r, pending)
      else (let r' = record r {
        last_applied =
            if ltb r.last_applied r.log.snap_last_idx then r.log.snap_last_idx else r.last_applied;
      } in
          (entries_from r' (apply_end r' - r'.last_applied) (r'.last_applied + 1) >>= λ es.
          some (r', entries es)))

  unfoldable pub number_entries : List (LogEntry C) → ℕ → List (ApplyMsg C B)
  number_entries [] i = []
  number_entries (e ∷ es) i = command_msg e.command_valid e.command i ∷ number_entries es (i + 1)

  -- The messages, as the state stands when they are sent.
  unfoldable pub apply_messages : Raft C B → Batch C → List (ApplyMsg C B)
  unfolding number_entries
  apply_messages r (entries es) = number_entries es (r.last_applied + 1)
  apply_messages r pending =
      snapshot_msg r.log.snapshot r.log.snap_last_term r.log.snap_last_idx ∷ []

  unfoldable pub apply_finish : Batch C → Raft C B → Raft C B
  apply_finish (entries es) r = record r { last_applied = r.last_applied + length es }
  apply_finish pending r = record r {
    last_applied = r.log.snap_last_idx;
    commit_index =
        if ltb r.commit_index r.log.snap_last_idx then r.log.snap_last_idx else r.commit_index;
    snap_pending = false;
  }
