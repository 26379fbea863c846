-- ===== src/Raft/Compaction.antt =====
-- src/raft/raft_compaction.go: snapshots taken by the service and snapshots sent by the leader.
use nexus_mind.Prelude.{
  ℕ, ◌+◌, true, Option, none, some, ltb, leb, if◌then◌else◌, ◌>>=◌, get_elem?, set,
}
use nexus_mind.Raft.Log.{do_snapshot, install_snapshot_log}
use nexus_mind.Raft.State.{
  Raft, Gob, leader, persist_locked, become_follower_locked, context_lost_locked,
}

pub record InstallSnapshotArgs (B : Type 0) : Type 0 where
  pub term : ℕ
  pub leader_id : ℕ
  pub last_included_index : ℕ
  pub last_included_term : ℕ
  pub snapshot : B

pub record InstallSnapshotReply : Type 0 where
  pub term : ℕ

module _ {C B : Type 0} (gob : Gob C B) where
  unfoldable pub snapshot : ℕ → B → Raft C B → Option (Raft C B)
  unfolding do_snapshot persist_locked
  snapshot index bytes r =
      if ltb r.commit_index index
      then some r
      else if leb index r.log.snap_last_idx
      then some r
      else (do_snapshot r.log index bytes >>= λ rl.
          some (persist_locked gob (record r { log = rl })))

  -- The follower's handler.
  unfoldable pub install_snapshot :
      InstallSnapshotArgs B → Raft C B → Raft C B × InstallSnapshotReply
  unfolding become_follower_locked install_snapshot_log persist_locked
  install_snapshot args r =
      if ltb args.term r.current_term
      then (r, record { term = r.current_term })
      else (let r' = become_follower_locked gob args.term r in
          let reply : InstallSnapshotReply = record { term = r.current_term } in
          if leb args.last_included_index r'.log.snap_last_idx then (r', reply) else (
            record (persist_locked gob (record r' {
              log =
                  install_snapshot_log r'.log args.last_included_index args.last_included_term
                    args.snapshot;
            })) { snap_pending = true },
            reply,
          ))

  -- `installToPeer` when the call is over; `none` is a call that failed.
  unfoldable pub install_reply :
      ℕ → ℕ → InstallSnapshotArgs B → Option InstallSnapshotReply → Raft C B → Option (Raft C B)
  unfolding become_follower_locked context_lost_locked
  install_reply peer term args none r = some r
  install_reply peer term args (some reply) r =
      if ltb r.current_term reply.term
      then some (become_follower_locked gob reply.term r)
      else if context_lost_locked r leader term
      then some r
      else (get_elem? r.match_index peer >>= λ matched. some (
          if ltb matched args.last_included_index
          then record r {
            match_index = set r.match_index peer args.last_included_index;
            next_index = set r.next_index peer (args.last_included_index + 1);
          }
          else r))
