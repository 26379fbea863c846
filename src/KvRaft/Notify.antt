-- ===== src/KvRaft/Notify.antt =====
-- src/kvraft/server.go: the channels between the handlers that wait and the loop that applies.

use nexus_mind.Prelude.{
  ℕ, ◌≤◌, ◌<◌, ◌≡◌, refl, ◌⊎◌, inl, inr, Bool, true, [], ◌∷◌, Option, none, some, arith,
  Option-cases, ◌∙◌, ap, sym, some-inj, Bool-cases, leb, ◌≢◌, false,
}
use nexus_mind.Prelude.Int.{ℤ}
use nexus_mind.Prelude.Dict.{Dict, nat_eq, lookup, insert, erase}
use nexus_mind.Raft.Application.{snapshot_msg}
use nexus_mind.KvRaft.Common.{Op, OpReply}
use nexus_mind.KvRaft.Server.{
  KvServer, SnapshotCodec, snapshot_call, apply_op, apply_command, apply_message, notify,
  await_result, receive, remove_notify_channel, start_kv_server, restore_from_snapshot,
}

-- A buffered reply stands only in channels up to `n`.
abbrev FreeAbove : ℕ → Dict ℕ (Option OpReply) → Type 0
FreeAbove n [] = Unit {0}
FreeAbove n ((i, ch) ∷ m) = ((ch ≡ none) ⊎ (i ≤ n)) × FreeAbove n m

FreeAbove-mono : (n k : ℕ) (m : Dict ℕ (Option OpReply)) → n ≤ k → FreeAbove n m → FreeAbove k m
FreeAbove-mono n k [] h f = tt
FreeAbove-mono n k ((i, ch) ∷ m) h f = (ground arith, FreeAbove-mono n k m h f.1)

insert-FreeAbove :
    (n i : ℕ) (ch : Option OpReply) (m : Dict ℕ (Option OpReply))
    → (ch ≡ none) ⊎ (i ≤ n)
    → FreeAbove n m
    → FreeAbove n (insert i ch m)
unfolding insert
insert-FreeAbove n i ch [] h f = (h, tt)
insert-FreeAbove n i ch ((j, w) ∷ m) h f = ground (arith, insert-FreeAbove n i ch m h f.1)

erase-FreeAbove : (n i : ℕ) (m : Dict ℕ (Option OpReply)) → FreeAbove n m → FreeAbove n (erase i m)
unfolding erase
erase-FreeAbove n i [] f = tt
erase-FreeAbove n i ((j, w) ∷ m) f = ground (arith, erase-FreeAbove n i m f.1)

lookup-FreeAbove :
    (n i : ℕ) (m : Dict ℕ (Option OpReply)) (r : OpReply)
    → FreeAbove n m
    → n < i
    → lookup i m ≢ some (some r)
unfolding lookup
lookup-FreeAbove n i [] r f l = λ e. cc
lookup-FreeAbove n i ((j, w) ∷ m) r f l = λ e. ground (arith, lookup-FreeAbove n i m r f.1 l)

abbrev Free : KvServer → Type 0
Free kv = FreeAbove kv.last_applied kv.notify_chans

notify_total :
    (n : ℕ) (index : ℕ) (reply : OpReply) (kv : KvServer)
    → FreeAbove n kv.notify_chans
    → n < index
    → (kv' : KvServer) × (notify index reply kv ≡ some kv')
      × (kv'.last_applied ≡ kv.last_applied)
      × FreeAbove index kv'.notify_chans
unfolding notify
notify_total n index reply kv f l =
    let chans = kv.notify_chans in
    let up = FreeAbove-mono n index chans (omega arith) f in
    elim (Option-cases (lookup index chans)) [
      | inl e ↦ (
        record kv { notify_chans = insert index (some reply) (insert index none chans) },
        ground arith,
        refl,
        insert-FreeAbove index index (some reply) (insert index none chans) (inr (omega arith))
            (insert-FreeAbove index index none chans (inl refl) up),
      )
      | inr (ch, e) ↦ elim (Option-cases ch) [
        | inl z ↦ (
          record kv { notify_chans = insert index (some reply) chans },
          ground arith,
          refl,
          insert-FreeAbove index index (some reply) chans (inr (omega arith)) up,
        )
        | inr (r, z) ↦ absurd (lookup-FreeAbove n index chans r f l (e ∙ ap some z))
      ]
    ]

apply_op-same :
    (op : Op) (kv : KvServer)
    → ((apply_op op kv).0.last_applied ≡ kv.last_applied)
      × ((apply_op op kv).0.notify_chans ≡ kv.notify_chans)
unfolding apply_op
apply_op-same op kv = ground arith

module _ {B : Type 0} (codec : SnapshotCodec B) where
  -- A critical section of the server's lock: a command is applied, a handler makes its channel, takes
  -- the reply or lets its channel be removed, or the peer hands over a snapshot.
  pub data ServerStep (kv kv' : KvServer) : Type 0 where
    applies :
        (leads : Bool) (size index : ℕ) (op : Op) (out : Option (ℕ × B))
        → apply_command codec leads size index op kv ≡ some (kv', out)
        → ServerStep kv kv'
    awaits : (leads : Bool) (index : ℕ) → kv' ≡ (await_result leads index kv).0 → ServerStep kv kv'
    receives : (index : ℕ) → kv' ≡ (receive index kv).0 → ServerStep kv kv'
    removes : (index : ℕ) → kv' ≡ remove_notify_channel index kv → ServerStep kv kv'
    restores :
        (leads : Bool) (size index term : ℕ) (bytes : B) (out : Option (ℕ × B))
        → apply_message codec leads size (snapshot_msg bytes term index) kv ≡ some (kv', out)
        → ServerStep kv kv'

  pub data ServerSteps (kv : KvServer) : KvServer → Type 0 where
    here : ServerSteps kv kv
    next : {a b : KvServer} → ServerSteps kv a → ServerStep a b → ServerSteps kv b

  -- A snapshot that the step restores is no older than what the server has applied.
  abbrev pub IsForward : {a b : KvServer} → ServerStep a b → Type 0
  IsForward (applies leads size index op out h) = Unit {0}
  IsForward (awaits leads index h) = Unit {0}
  IsForward (receives index h) = Unit {0}
  IsForward (removes index h) = Unit {0}
  IsForward {a} (restores leads size index term bytes out h) = a.last_applied ≤ index

  abbrev pub AreForward : {a b : KvServer} → ServerSteps a b → Type 0
  AreForward here = Unit {0}
  AreForward (next ss s) = AreForward ss × IsForward s

  apply_command-Free :
      (leads : Bool) (size index : ℕ) (op : Op) (kv : KvServer)
      → Free kv
      → (p : KvServer × Option (ℕ × B)) × (apply_command codec leads size index op kv ≡ some p)
        × Free p.0
  apply_command-Free leads size index op kv f =
      let (kv', reply) = apply_op op (record kv { last_applied = index }) in
      let (last, chans) = apply_op-same op (record kv { last_applied = index }) in
      elim (Bool-cases (leb index kv.last_applied)) [
        | inl old ↦ ((kv, none), unfold apply_command in rw old, f)
        | inr new ↦
            let f' : FreeAbove kv.last_applied kv'.notify_chans = rw chans f in
            let (kv'', sent, last', f'') =
              notify_total kv.last_applied index reply kv' f' (ground arith) in
            elim (Bool-cases leads) [
              | inl yes_leads ↦ (
                (kv'', snapshot_call codec size index kv''),
                unfold apply_command in rw (new, yes_leads, sent),
                rw (last', last) f'',
              )
              | inr follows ↦ (
                (kv', snapshot_call codec size index kv'),
                unfold apply_command in rw (new, follows),
                rw last (FreeAbove-mono kv.last_applied index kv'.notify_chans (ground arith) f'),
              )
            ]
      ]

  ServerStep-Free : {a b : KvServer} → (s : ServerStep a b) → IsForward s → Free a → Free b
  unfolding await_result receive remove_notify_channel apply_message
  ServerStep-Free {a} {b} (applies leads size index op out h) l f =
      let (p, q, g) = apply_command-Free leads size index op a f in
      let same : p ≡ (b, out) = some-inj _ _ (sym q ∙ h) in rw same at g
  ServerStep-Free {a} (awaits leads index h) l f =
      ground (arith, insert-FreeAbove a.last_applied index none a.notify_chans (inl refl) f)
  ServerStep-Free {a} (receives index h) l f =
      ground (arith, insert-FreeAbove a.last_applied index none a.notify_chans (inl refl) f)
  ServerStep-Free {a} (removes index h) l f =
      ground (arith, erase-FreeAbove a.last_applied index a.notify_chans f)
  ServerStep-Free {a} (restores leads size index term bytes out h) l f =
      ground (arith, FreeAbove-mono a.last_applied index a.notify_chans l f)

  ServerSteps-Free : {a b : KvServer} (ss : ServerSteps a b) → AreForward ss → Free a → Free b
  ServerSteps-Free here l f = f
  ServerSteps-Free (next ss s) l f = ServerStep-Free s l.1 (ServerSteps-Free ss l.0 f)

  start_kv_server-Free :
      (maxraftstate : ℤ) (bytes : B) (kv : KvServer)
      → start_kv_server codec maxraftstate bytes ≡ some kv
      → Free kv
  unfolding start_kv_server
  start_kv_server-Free maxraftstate bytes kv h = ground arith

  restored :
      (leads : Bool) (size index term : ℕ) (bytes : B) (out : Option (ℕ × B)) (kv kv' : KvServer)
      → apply_message codec leads size (snapshot_msg bytes term index) kv ≡ some (kv', out)
      → (kv'.last_applied ≡ index) × (kv'.notify_chans ≡ kv.notify_chans)
  unfolding apply_message restore_from_snapshot
  restored leads size index term bytes out kv kv' h = ground (arith, h)

  notify_full :
      (index : ℕ) (reply r : OpReply) (kv : KvServer)
      → lookup index kv.notify_chans ≡ some (some r)
      → notify index reply kv ≡ none
  unfolding notify
  notify_full index reply r kv h = ground (arith, h)

  apply_command_full :
      (size index : ℕ) (op : Op) (r : OpReply) (kv : KvServer)
      → kv.last_applied < index
      → lookup index kv.notify_chans ≡ some (some r)
      → apply_command codec true size index op kv ≡ none
  unfolding apply_command
  apply_command_full size index op r kv l h =
      let (kv', reply) = apply_op op (record kv { last_applied = index }) in
      let (_, chans) = apply_op-same op (record kv { last_applied = index }) in
      let new : leb index kv.last_applied ≡ false = ground arith in
      rw (new, notify_full index reply r kv' (rw chans h)) refl

  -- Whatever critical sections a server has gone through since it was started: if no snapshot that
  -- it restored was older than what it had applied, then the apply loop does not block at a full
  -- channel, but can apply the next command. If then an older snapshot is restored, the server as a
  -- leader blocks at each later index whose channel still holds a reply, and that is an index it
  -- had applied before.
  pub apply_command_total :
      (maxraftstate : ℤ) (bytes : B) (size index : ℕ) (op : Op) {kv kv' : KvServer}
      → start_kv_server codec maxraftstate bytes ≡ some kv
      → (ss : ServerSteps kv kv') → AreForward ss
      → ((leads : Bool)
          → (p : KvServer × Option (ℕ × B)) × (apply_command codec leads size index op kv'
              ≡ some p))
        × ((leads : Bool) (old term : ℕ) (snapshot : B) (out : Option (ℕ × B)) (back : KvServer)
              (r : OpReply)
            → apply_message codec leads size (snapshot_msg snapshot term old) kv' ≡ some (back, out)
            → old < index
            → lookup index kv'.notify_chans ≡ some (some r)
            → (index ≤ kv'.last_applied) × (apply_command codec true size index op back ≡ none))
  apply_command_total maxraftstate bytes size index op {kv} {kv'} h ss forward =
      let free = ServerSteps-Free ss forward (start_kv_server-Free maxraftstate bytes kv h) in
      (
        λ leads. let (p, q, _) = apply_command-Free leads size index op kv' free in (p, q),
        λ leads old term snapshot out back r e l full.
            let (last, chans) = restored leads size old term snapshot out kv' back e in
            (
              ground (arith, lookup-FreeAbove kv'.last_applied index kv'.notify_chans r free, full),
              apply_command_full size index op r back (omega arith)
                  (ap (lookup index) chans ∙ full),
            ),
      )
