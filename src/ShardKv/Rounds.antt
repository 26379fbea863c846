-- ===== src/ShardKv/Rounds.antt =====
-- src/shardkv/client.go: each round over the servers of a group ends.
use nexus_mind.Prelude.{
  ℕ, suc, ◌+◌, ◌%◌, ◌<◌, ◌≤◌, ◌≡◌, ◌≢◌, refl, Option, some, List, [], ◌∷◌, arith, length, Bool,
  true, ◌∙◌, ap, ==_iff, lt→ltb, ltb,
}
use nexus_mind.Prelude.Dict.{int_eq, lookup, lookup-insert, beq_refl}
use nexus_mind.Prelude.Int.{ℤ}
use native.Mathlib.Nat.{mod-add-mod, mod-eq_of_lt, mod-lt}
use Prim.Native.String.{String}
use nexus_mind.ShardKv.Common.{Err}
use nexus_mind.ShardKv.Client.{
  Clerk, Outcome, waits, panics, repeats, leader_of, gid_of, attempt, ensure_leader, set_leader,
  next_leader, verdict, calls,
}

leader_of-next_leader :
    (gid : ℤ) (n : ℕ) (ck : Clerk)
    → leader_of gid (next_leader gid n ck) ≡ (leader_of gid ck + 1) % n
unfolding leader_of next_leader set_leader
leader_of-next_leader gid n ck =
    ground (arith, lookup-insert gid gid ((leader_of gid ck + 1) % n) ck.leader_ids, beq_refl gid)

-- One place further round a ring of `n`, and when that is the place where it began.
ring_step : (old j n : ℕ) → old < n → ((old + j) % n + 1) % n ≡ (old + suc j) % n
ring_step old j n h =
    let e : old + j + 1 ≡ old + suc j = omega arith in mod-add-mod (old + j) n 1 ∙ ap (λ t. t % n) e

ring_wrap : (old n : ℕ) → old < n → (old + n) % n ≡ old
ring_wrap old n h = grind arith

ring_full : (old j n : ℕ) → old < n → j + 1 ≡ n → (old + suc j) % n ≡ old
ring_full old j n h q = let e : old + suc j ≡ old + n = omega arith in rw e (ring_wrap old n h)

ring_away : (old i n : ℕ) → old < n → 0 < i → i < n → (old + i) % n ≢ old
ring_away old i n h p q = grind arith

abbrev pub NoRepeat : {R : Type 0} → (R → Err) → (Err → Bool) → List (Option R) → Type 0
NoRepeat err_of is_final [] = Unit {0}
NoRepeat err_of is_final (r ∷ rs) =
    (verdict err_of is_final r ≢ repeats) × NoRepeat err_of is_final rs

abbrev pub Ended : {R : Type 0} → Outcome R → Type 0
Ended o = (o ≢ waits) × (o ≢ panics)

module _ {R : Type 0} (err_of : R → Err) (is_final : Err → Bool) (gid : ℤ) (n old : ℕ) where
  calls-Ended_from :
      (rs : List (Option R)) (ck : Clerk) (j : ℕ)
      → old < n
      → j < n
      → leader_of gid ck ≡ (old + j) % n
      → NoRepeat err_of is_final rs
      → n ≤ length rs + j
      → Ended ((calls err_of is_final gid n old rs ck).1)
  unfolding calls
  calls-Ended_from [] ck j h p e a f = absurd (omega arith)
  calls-Ended_from (r ∷ rs) ck j h p e a f =
      let inside : ltb (leader_of gid ck) n ≡ true =
        rw e (lt→ltb _ n (mod-lt (old + j) (omega arith))) in
      let place : leader_of gid (next_leader gid n ck) ≡ (old + suc j) % n =
        leader_of-next_leader gid n ck ∙ (rw e (ring_step old j n h)) in
      let full : j + 1 ≡ n → (old + suc j) % n ≡ old = ring_full old j n h in
      ground (
        arith,
        inside,
        place,
        full,
        ==_iff (leader_of gid (next_leader gid n ck)) old,
        calls-Ended_from rs ck j h p e (a.1),
        calls-Ended_from rs (next_leader gid n ck) (suc j) h,
      )

  pub calls-Ended :
      (answers : List (Option R)) (ck : Clerk)
      → leader_of gid ck ≡ old
      → old < n
      → NoRepeat err_of is_final answers
      → n ≤ length answers
      → Ended ((calls err_of is_final gid n old answers ck).1)
  calls-Ended answers ck e h a f =
      let z : (old + 0) % n ≡ old = grind (arith, mod-eq_of_lt h) in
      calls-Ended_from answers ck 0 h (omega arith) (rw z e) a (omega arith)

calls-panics :
    {R : Type 0} (err_of : R → Err) (is_final : Err → Bool) (gid : ℤ) (n old : ℕ)
    (answers : List (Option R)) (ck : Clerk)
    → n ≤ leader_of gid ck
    → (calls err_of is_final gid n old answers ck).1 ≡ panics
unfolding calls
calls-panics err_of is_final gid n old [] ck h = ground arith
calls-panics err_of is_final gid n old (r ∷ rs) ck h = ground arith

leader_of-ensure_leader :
    (gid : ℤ) (ck : Clerk) → leader_of gid (ensure_leader gid ck) ≡ leader_of gid ck
unfolding leader_of ensure_leader set_leader
leader_of-ensure_leader gid ck = ground (arith, lookup-insert gid gid 0 ck.leader_ids, beq_refl gid)

attempt-calls :
    {R : Type 0} (err_of : R → Err) (is_final : Err → Bool) (key : String) (servers : List String)
    (answers : List (Option R)) (ck : Clerk)
    → lookup (gid_of key ck) ck.config.groups ≡ some servers
    → attempt err_of is_final key answers ck
      ≡ calls err_of is_final
          (gid_of key ck)
          (length servers)
          (leader_of (gid_of key ck) (ensure_leader (gid_of key ck) ck))
          answers
          (ensure_leader (gid_of key ck) ck)
unfolding attempt
attempt-calls err_of is_final key servers answers ck e = rw (e, attempt) refl

-- When a group has the key's shard and each answer is one of those that the clerk looks for, then
-- as many answers as the group has servers end the round: the command returns, or the clerk goes on
-- to ask for the latest configuration. That is so if the leader that the clerk remembers is an
-- index of the servers; if it is not, the round panics.
pub attempt-Ended :
    {R : Type 0} (err_of : R → Err) (is_final : Err → Bool) (key : String) (servers : List String)
    (answers : List (Option R)) (ck : Clerk)
    → lookup (gid_of key ck) ck.config.groups ≡ some servers
    → NoRepeat err_of is_final answers
    → length servers ≤ length answers
    → (leader_of (gid_of key ck) ck < length servers
        → Ended ((attempt err_of is_final key answers ck).1))
      × (length servers ≤ leader_of (gid_of key ck) ck
          → (attempt err_of is_final key answers ck).1 ≡ panics)
attempt-Ended err_of is_final key servers answers ck e a f =
    let k = leader_of-ensure_leader (gid_of key ck) ck in
    rw (attempt-calls err_of is_final key servers answers ck e) (
      λ h.
          calls-Ended err_of is_final (gid_of key ck) (length servers) _ answers _ refl (rw k h) a
            f,
      λ h. calls-panics err_of is_final (gid_of key ck) (length servers) _ answers _ (rw k h),
    )
