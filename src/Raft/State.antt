-- ===== src/Raft/State.antt =====
-- src/raft/raft.go, raft/persister.go and raft/raft_persistence.go: the state of a peer, what it
-- saves on stable storage, its changes of role, and a restart. Terms and indices are naturals: Go's
-- 64-bit `int` counts them from 0 and they only grow by one.
use nexus_mind.Prelude.{
  ℕ, ◌+◌, ◌-◌, ◌<◌, ◌≡◌, Bool, true, false, not, ◌&&◌, Option, some, List, [], ◌∷◌, ltb, ◌==◌,
  if◌then◌else◌, get_elem?, replicate,
}
use nexus_mind.Prelude.Int.{ℤ, pos, minus_one}
use nexus_mind.Raft.Log.{LogEntry, RaftLog, new_log, size, append, invalid_index, invalid_term}

pub data Role : Type 0 where
  follower candidate leader : Role

unfoldable pub is_follower : Role → Bool
is_follower follower = true
is_follower _ = false

unfoldable pub is_candidate : Role → Bool
is_candidate candidate = true
is_candidate _ = false

unfoldable pub is_leader : Role → Bool
is_leader leader = true
is_leader _ = false

-- The values that a peer encodes: a term or an index, a vote, the log.
pub data Value (C : Type 0) : Type 0 where
  number : ℕ → Value C
  vote : ℤ → Value C
  entries : List (LogEntry C) → Value C

-- The encoder that labgob wraps (encoding/gob), which is not part of the repository's code: the i-th
-- `Decode` on what one encoder wrote gives the i-th value encoded, and what it wrote is not empty.
pub record Gob (C B : Type 0) : Type 0 where
  pub encode : List (Value C) → B
  pub decode : B → ℕ → Option (Value C)
  pub len : B → ℕ
  pub no_bytes : B
  pub decode-encode : (vs : List (Value C)) (i : ℕ) → decode (encode vs) i ≡ get_elem? vs i
  pub encode_pos : (v : Value C) (vs : List (Value C)) → 0 < len (encode (v ∷ vs))
  pub len-no_bytes : len no_bytes ≡ 0

pub record Persister (B : Type 0) : Type 0 where
  pub raftstate : B
  pub snapshot : B

-- What a handler reads from outside: `time.Now()` and `rand.Int63()`.
pub record Moment : Type 0 where
  pub now : ℕ
  pub rand : ℕ

-- `voted_for` is -1 for none. `peers` is their number.
pub record Raft (C B : Type 0) : Type 0 where
  pub peers : ℕ
  pub persister : Persister B
  pub me : ℕ
  pub dead : Bool
  pub role : Role
  pub current_term : ℕ
  pub voted_for : ℤ
  pub log : RaftLog C B
  pub next_index : List ℕ
  pub match_index : List ℕ
  pub commit_index : ℕ
  pub last_applied : ℕ
  pub snap_pending : Bool
  pub election_start : ℕ
  pub election_timeout : ℕ

-- `raftstate` and `snapshot` are replaced together; `clone` keeps the bytes.
unfoldable pub save : {B : Type 0} → Persister B → B → B → Persister B
save ps raftstate snapshot = record ps { raftstate = raftstate; snapshot = snapshot }

module _ {C B : Type 0} where
  unfoldable pub context_lost_locked : Raft C B → Role → ℕ → Bool
  unfolding is_follower is_candidate is_leader
  context_lost_locked r follower term = not (r.current_term == term && is_follower r.role)
  context_lost_locked r candidate term = not (r.current_term == term && is_candidate r.role)
  context_lost_locked r leader term = not (r.current_term == term && is_leader r.role)

  -- `nextIndex` becomes the log's size and `matchIndex` 0 at every peer.
  unfoldable pub become_leader_locked : Raft C B → Raft C B
  unfolding is_candidate size
  become_leader_locked r =
      if is_candidate r.role
      then record r {
        role = leader;
        next_index = replicate r.peers (size r.log);
        match_index = replicate r.peers 0;
      }
      else r

  unfoldable pub get_state : Raft C B → ℕ × Bool
  unfolding is_leader
  get_state r = (r.current_term, is_leader r.role)

  unfoldable pub kill : Raft C B → Raft C B
  kill r = record r { dead = true }

  unfoldable pub killed : Raft C B → Bool
  killed r = r.dead

module _ {C B : Type 0} (gob : Gob C B) where
  -- What `persistLocked` encodes, in its order.
  abbrev pub persisted : ℕ → ℤ → RaftLog C B → List (Value C)
  persisted term voted rl =
      number term
      ∷ vote voted
      ∷ number rl.snap_last_idx
      ∷ number rl.snap_last_term
      ∷ entries rl.tail_log
      ∷ []

  unfoldable pub persist_locked : Raft C B → Raft C B
  unfolding save
  persist_locked r = record r {
    persister =
        save r.persister (gob.encode (persisted r.current_term r.voted_for r.log)) r.log.snapshot;
  }

  unfoldable pub get_raft_state_size : Raft C B → ℕ
  get_raft_state_size r = gob.len r.persister.raftstate

  unfoldable pub become_follower_locked : ℕ → Raft C B → Raft C B
  unfolding persist_locked
  become_follower_locked term r =
      if ltb term r.current_term
      then r
      else (let r' = record r {
        role = follower;
        voted_for = if ltb r.current_term term then minus_one else r.voted_for;
        current_term = term;
      } in
          if r.current_term == term then r' else persist_locked r')

  unfoldable pub become_candidate_locked : Raft C B → Raft C B
  unfolding is_leader persist_locked
  become_candidate_locked r =
      if is_leader r.role
      then r
      else persist_locked
          (record r { current_term = r.current_term + 1; role = candidate; voted_for = pos r.me })

  -- The index and the term of the new entry, and whether this peer is the leader.
  unfoldable pub start : C → Raft C B → Raft C B × ℕ × ℕ × Bool
  unfolding is_leader append persist_locked size
  start command r =
      if is_leader r.role
      then (let r' = persist_locked (record r {
        log =
            append r.log
              (record { term = r.current_term; command_valid = true; command = some command });
      }) in
          (r', size r'.log - 1, r'.current_term, true))
      else (r, 0, 0, false)

  read_tail : B → RaftLog C B → RaftLog C B × Bool
  read_tail bytes rl = elim (gob.decode bytes 4) [
    | some (entries es) ↦ (record rl { tail_log = es }, true)
    | _ ↦ (rl, false)
  ]

  read_last_term : B → RaftLog C B → RaftLog C B × Bool
  unfolding read_tail
  read_last_term bytes rl = elim (gob.decode bytes 3) [
    | some (number term) ↦ read_tail bytes (record rl { snap_last_term = term })
    | _ ↦ (rl, false)
  ]

  -- `RaftLog.readPersist`, after the two values that the caller has read; `false` is an error, and
  -- the fields read before it stay.
  unfoldable pub read_persist_log : B → RaftLog C B → RaftLog C B × Bool
  unfolding read_last_term
  read_persist_log bytes rl = elim (gob.decode bytes 2) [
    | some (number idx) ↦ read_last_term bytes (record rl { snap_last_idx = idx })
    | _ ↦ (rl, false)
  ]

  -- The snapshot, and the indices that follow from it.
  read_snapshot : Raft C B → Raft C B
  read_snapshot r =
      let r' = record r { log = record (r.log) { snapshot = r.persister.snapshot } } in
      if ltb r'.commit_index r'.log.snap_last_idx
      then record r' { commit_index = r'.log.snap_last_idx; last_applied = r'.log.snap_last_idx }
      else r'

  read_log : B → Raft C B → Raft C B
  unfolding read_persist_log read_snapshot
  read_log bytes r =
      let (rl, good) = read_persist_log bytes r.log in
      let r' = record r { log = rl } in if good then read_snapshot r' else r'

  read_vote : B → Raft C B → Raft C B
  unfolding read_log
  read_vote bytes r = elim (gob.decode bytes 1) [
    | some (vote v) ↦ read_log bytes (record r { voted_for = v })
    | _ ↦ r
  ]

  unfoldable pub read_persist : B → Raft C B → Raft C B
  unfolding read_vote
  read_persist bytes r = if ltb (gob.len bytes) 1 then r else elim (gob.decode bytes 0) [
    | some (number term) ↦ read_vote bytes (record r { current_term = term })
    | _ ↦ r
  ]

  -- A new peer over what its persister holds; the caller starts the two tickers.
  unfoldable pub make : ℕ → ℕ → Persister B → Raft C B
  unfolding new_log read_persist
  make peers me ps = read_persist ps.raftstate (record {
    peers = peers;
    persister = ps;
    me = me;
    dead = false;
    role = follower;
    current_term = 1;
    voted_for = minus_one;
    log = new_log invalid_index invalid_term gob.no_bytes [];
    next_index = replicate peers 0;
    match_index = replicate peers 0;
    commit_index = 0;
    last_applied = 0;
    snap_pending = false;
    election_start = 0;
    election_timeout = 0;
  })
