-- ===== src/ShardKv/Copies.antt =====
-- src/shardkv/state_machine.go and conf_change.go: what can be read from a map that is copied.
use nexus_mind.Prelude.{
  ℕ, ◌≤◌, ◌≡◌, refl, ◌⊎◌, inl, inr, Option, none, some, [], ◌∷◌, arith, Option-cases, Bool-cases,
}
use Prim.Native.String.{String}
use nexus_mind.Prelude.Dict.{Dict, Eq, nat_eq, string_eq, lookup, insert, lookup-insert}
use nexus_mind.ShardKv.Common.{LastOperationInfo}
use nexus_mind.ShardKv.Shards.{copy_data}
use nexus_mind.ShardKv.Migration.{copy_into, keep_later, merge_table}
use nexus_mind.ShardKv.Task.{copy_table}

-- No key stands twice.
abbrev pub IsDistinct : {K V : Type 0} ⦃e : Eq K⦄ → Dict K V → Type 0
IsDistinct [] = Unit {0}
IsDistinct ((k, v) ∷ m) = (lookup k m ≡ none) × IsDistinct m

pub insert-IsDistinct :
    {K V : Type 0} ⦃e : Eq K⦄
    → (k : K) (v : V) (m : Dict K V) → IsDistinct m
    → IsDistinct (insert k v m)
unfolding insert lookup
insert-IsDistinct k v [] d = (refl, tt)
insert-IsDistinct ⦃e⦄ k v ((j, w) ∷ m) d =
    ground (arith, insert-IsDistinct k v m d.1, lookup-insert k j v m, e.beq_iff j k, e.beq_iff k j)

abbrev pub or_else : {A : Type 0} → Option A → Option A → Option A
or_else none b = b
or_else (some a) b = some a

pub lookup-copy_data :
    (key : String) (m : Dict String String) → lookup key (copy_data m) ≡ lookup key m
unfolding copy_data lookup
lookup-copy_data key [] = refl
lookup-copy_data key ((k, v) ∷ m) =
    ground (arith, lookup-copy_data key m, lookup-insert k key v (copy_data m))

pub copy_data-IsDistinct : (m : Dict String String) → IsDistinct (copy_data m)
unfolding copy_data
copy_data-IsDistinct [] = tt
copy_data-IsDistinct ((k, v) ∷ m) = insert-IsDistinct k v (copy_data m) (copy_data-IsDistinct m)

pub lookup-copy_into :
    (key : String) (m kv : Dict String String)
    → IsDistinct m
    → lookup key (copy_into m kv) ≡ or_else (lookup key m) (lookup key kv)
unfolding copy_into lookup
lookup-copy_into key [] kv d = refl
lookup-copy_into key ((k, v) ∷ m) kv d = ground (
  arith,
  lookup-copy_into key m (insert k v kv) d.1,
  lookup-insert k key v kv,
  string_eq.beq_iff k key,
  d.0,
)

-- The client's command `seq`, or a later one, is in the table.
abbrev pub HasSeen : ℕ → ℕ → Dict ℕ LastOperationInfo → Type 0
HasSeen client seq table =
    (info : LastOperationInfo) × (lookup client table ≡ some info) × (seq ≤ info.seq_id)

keep_later-HasSeen :
    (client seq c : ℕ) (info : LastOperationInfo) (table : Dict ℕ LastOperationInfo)
    → HasSeen client seq table ⊎ ((c ≡ client) × (seq ≤ info.seq_id))
    → HasSeen client seq (keep_later c info table)
unfolding keep_later
keep_later-HasSeen client seq c info table h =
    elim (Option-cases (lookup client (keep_later c info table))) [
      | inl n ↦ absurd (ground (arith, lookup-insert c client info table, nat_eq.beq_iff c client))
      | inr (i, e) ↦
          (i, e, ground (arith, lookup-insert c client info table, nat_eq.beq_iff c client))
    ]

-- A command that either table knows is known in the merged one.
pub merge_table-HasSeen :
    (client seq : ℕ) (new table : Dict ℕ LastOperationInfo)
    → HasSeen client seq table ⊎ HasSeen client seq new
    → HasSeen client seq (merge_table new table)
unfolding merge_table lookup
merge_table-HasSeen client seq [] table (inl h) = h
merge_table-HasSeen client seq [] table (inr (i, e, l)) = absurd (ground arith)
merge_table-HasSeen client seq ((c, info) ∷ new) table (inl h) =
    merge_table-HasSeen client seq new (keep_later c info table)
      (inl (keep_later-HasSeen client seq c info table (inl h)))
merge_table-HasSeen client seq ((c, info) ∷ new) table (inr (i, e, l)) =
    elim (Bool-cases (nat_eq.beq c client)) [
      | inl same ↦ merge_table-HasSeen client seq new (keep_later c info table) (
          inl (
            keep_later-HasSeen client seq c info table
              (inr ((nat_eq.beq_iff c client).0 same, ground arith))))
      | inr other ↦
          merge_table-HasSeen client seq new (keep_later c info table) (inr (i, ground arith, l))
    ]

pub lookup-copy_table :
    (client : ℕ) (m : Dict ℕ LastOperationInfo) → lookup client (copy_table m) ≡ lookup client m
unfolding copy_table lookup
lookup-copy_table client [] = refl
lookup-copy_table client ((k, v) ∷ m) =
    ground (arith, lookup-copy_table client m, lookup-insert k client v (copy_table m))
