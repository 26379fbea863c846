-- ===== src/ShardKv/Handover.antt =====
-- src/shardkv/task.go and conf_change.go: a shard that one group hands over to another.
use Prim.Native.String.{String}
use nexus_mind.Prelude.{
  ℕ, ◌≤◌, ◌≡◌, refl, ◌⊎◌, inl, inr, Bool, true, false, ◌||◌, Option, none, some, List, [], ◌∷◌,
  arith, sym, ap, ◌∙◌, if◌then◌else◌, Bool-cases,
}
use nexus_mind.Prelude.Dict.{Dict, nat_eq, string_eq, lookup, insert, lookup-insert}
use nexus_mind.ShardKv.Common.{
  ok, err_wrong_config, OpReply, move_in, gc, ShardOperationArgs, ShardOperationReply,
}
use nexus_mind.ShardKv.Shards.{Shard, copy_data}
use nexus_mind.ShardKv.Server.{ShardKv}
use nexus_mind.ShardKv.Migration.{copy_into, migrate_shards, merge_table, apply_shard_migration}
use nexus_mind.ShardKv.Task.{copy_shards, copy_table, get_shards_data}
use nexus_mind.ShardKv.Copies.{
  IsDistinct, insert-IsDistinct, or_else, lookup-copy_data, copy_data-IsDistinct, lookup-copy_into,
  HasSeen, merge_table-HasSeen, lookup-copy_table,
}

abbrev pub mem : ℕ → List ℕ → Bool
mem i [] = false
mem i (j ∷ ids) = nat_eq.beq j i || mem i ids

-- Each shard of the list is there, with the property.
abbrev pub Each : (Shard → Type 0) → List ℕ → Dict ℕ Shard → Type 0
Each P ids shards = (i : ℕ) → mem i ids ≡ true → (s : Shard) × (lookup i shards ≡ some s) × P s

abbrev copy_of : Option Shard → Option (Dict String String)
copy_of none = none
copy_of (some s) = some (copy_data s.kv)

copy_shards_lem :
    (ids : List ℕ) (shards : Dict ℕ Shard) (out : Dict ℕ (Dict String String))
    → ((i : ℕ) → mem i ids ≡ true → (s : Shard) × (lookup i shards ≡ some s))
    → IsDistinct out
    → (r : Dict ℕ (Dict String String)) × (copy_shards ids shards out ≡ some r)
      × IsDistinct r
      × ((i : ℕ) → lookup i r ≡ (if mem i ids then copy_of (lookup i shards) else lookup i out))
unfolding copy_shards
copy_shards_lem [] shards out a d = (out, refl, d, λ i. refl)
copy_shards_lem (j ∷ ids) shards out a d =
    let (s, e) = a j (ground (arith, nat_eq.beq_iff j j)) in
    let (r, f, k, g) =
      copy_shards_lem ids shards (insert j (copy_data s.kv) out) (λ i m. a i (ground arith))
        (insert-IsDistinct j (copy_data s.kv) out d) in
    (
      r,
      rw e f,
      k,
      λ i. ground (arith, g i, lookup-insert j i (copy_data s.kv) out, nat_eq.beq_iff j i),
    )

-- Each shard of the map is to move in.
abbrev MovesIn : Dict ℕ (Dict String String) → Dict ℕ Shard → Type 0
MovesIn m shards =
    (i : ℕ) (d : Dict String String)
    → lookup i m ≡ some d
    → (s : Shard) × (lookup i shards ≡ some s) × (s.status ≡ move_in)

-- A shard after data for it, if there is any, has arrived.
abbrev arrived : Option (Dict String String) → Option Shard → Option Shard
arrived none s = s
arrived (some d) none = none
arrived (some d) (some s) = some (record { kv = copy_into d s.kv; status = gc })

MovesIn-insert :
    (j : ℕ) (m : Dict ℕ (Dict String String)) (s : Shard) (shards : Dict ℕ Shard)
    → lookup j m ≡ none
    → MovesIn m shards
    → MovesIn m (insert j s shards)
MovesIn-insert j m s shards n a i d e =
    let (t, f, g) = a i d e in
    (t, ground (arith, lookup-insert j i s shards, nat_eq.beq_iff j i), g)

arrived-next :
    (i j : ℕ) (c : Dict String String) (m : Dict ℕ (Dict String String)) (s : Shard)
    (shards : Dict ℕ Shard)
    → lookup j m ≡ none
    → lookup j shards ≡ some s
    → arrived
        (lookup i m)
        (lookup i (insert j (record { kv = copy_into c s.kv; status = gc }) shards))
      ≡ arrived (lookup i ((j, c) ∷ m)) (lookup i shards)
unfolding lookup
arrived-next i j c m s shards n e =
    let s' : Shard = record { kv = copy_into c s.kv; status = gc } in
    elim (Bool-cases (nat_eq.beq j i)) [
      | inl same ↦
          let p = (nat_eq.beq_iff j i).0 same in
          let n' : lookup i m ≡ none = ap (λ h. lookup h m) (sym p) ∙ n in
          let e' : lookup i shards ≡ some s = ap (λ h. lookup h shards) (sym p) ∙ e in
          ground (arith, lookup-insert j i s' shards)
      | inr other ↦ ground (arith, lookup-insert j i s' shards)
    ]

migrate_shards-next :
    (j : ℕ) (c : Dict String String) (m : Dict ℕ (Dict String String)) (s : Shard)
    (shards r : Dict ℕ Shard)
    → lookup j shards ≡ some s
    → s.status ≡ move_in
    → migrate_shards m (insert j (record { kv = copy_into c s.kv; status = gc }) shards) ≡ some r
    → migrate_shards ((j, c) ∷ m) shards ≡ some r
unfolding migrate_shards
migrate_shards-next j c m s shards r e t f = rw (e, t) f

lookup-tail :
    (i j : ℕ) (c d : Dict String String) (m : Dict ℕ (Dict String String))
    → lookup j m ≡ none
    → lookup i m ≡ some d
    → lookup i ((j, c) ∷ m) ≡ some d
unfolding lookup
lookup-tail i j c d m n e = elim (Bool-cases (nat_eq.beq j i)) [
  | inl same ↦ let p = ap (λ h. lookup h m) ((nat_eq.beq_iff j i).0 same) in absurd (ground arith)
  | inr other ↦ ground arith
]

migrate_shards_lem :
    (m : Dict ℕ (Dict String String)) (shards : Dict ℕ Shard)
    → IsDistinct m
    → MovesIn m shards
    → (r : Dict ℕ Shard) × (migrate_shards m shards ≡ some r)
      × ((i : ℕ) → lookup i r ≡ arrived (lookup i m) (lookup i shards))
unfolding migrate_shards lookup
migrate_shards_lem [] shards k a = (shards, refl, λ i. refl)
migrate_shards_lem ((j, c) ∷ m) shards k a =
    let (s, e, t) = a j c (ground (arith, nat_eq.beq_iff j j)) in
    let s' : Shard = record { kv = copy_into c s.kv; status = gc } in
    let rest : MovesIn m shards = λ i d p. a i d (lookup-tail i j c d m k.0 p) in
    let (r, f, g) =
      migrate_shards_lem m (insert j s' shards) k.1 (MovesIn-insert j m s' shards k.0 rest) in
    (r, migrate_shards-next j c m s shards r e t f, λ i. g i ∙ arrived-next i j c m s shards k.0 e)

module _ (args : ShardOperationArgs) (src dst : ShardKv) where
  -- What the receiving group holds of a shard afterwards.
  abbrev pub Received : ℕ → ShardKv → Type 0
  Received i dst' =
      (s d t : Shard) × (lookup i src.shards ≡ some s)
      × (lookup i dst.shards ≡ some d)
      × (lookup i dst'.shards ≡ some t)
      × (t.status ≡ gc)
      × ((key : String) → lookup key t.kv ≡ or_else (lookup key s.kv) (lookup key d.kv))

  get_shards_data_eq :
      (r : Dict ℕ (Dict String String))
      → args.config_num ≤ src.current_config.num
      → copy_shards args.shard_ids src.shards [] ≡ some r
      → get_shards_data true args src
        ≡ some (record {
          err = ok;
          config_num = args.config_num;
          shard_data = r;
          duplicate_table = copy_table src.duplicate_table;
        })
  unfolding get_shards_data
  get_shards_data_eq r le e = ground arith

  apply_shard_migration_eq :
      (moved : ShardOperationReply) (r : Dict ℕ Shard)
      → moved.config_num ≡ dst.current_config.num
      → migrate_shards moved.shard_data dst.shards ≡ some r
      → apply_shard_migration moved dst
        ≡ some (
          record dst {
            shards = r;
            duplicate_table = merge_table moved.duplicate_table dst.duplicate_table;
          },
          record { value = ""; err = err_wrong_config },
        )
  unfolding apply_shard_migration
  apply_shard_migration_eq moved r same e =
      ground (arith, nat_eq.beq_iff moved.config_num dst.current_config.num)

  seen :
      (client seq : ℕ)
      → HasSeen client seq src.duplicate_table ⊎ HasSeen client seq dst.duplicate_table
      → HasSeen client seq (merge_table (copy_table src.duplicate_table) dst.duplicate_table)
  seen client seq (inl (i, e, l)) =
      merge_table-HasSeen client seq (copy_table src.duplicate_table) dst.duplicate_table
        (inr (i, lookup-copy_table client src.duplicate_table ∙ e, l))
  seen client seq (inr h) =
      merge_table-HasSeen client seq (copy_table src.duplicate_table) dst.duplicate_table (inl h)

  copied-MovesIn :
      (r : Dict ℕ (Dict String String))
      → ((i : ℕ)
          → lookup i r ≡ (
              if mem i args.shard_ids
              then copy_of (lookup i src.shards)
              else lookup {V = Dict String String} i []))
      → Each (λ s. s.status ≡ move_in) args.shard_ids dst.shards
      → MovesIn r dst.shards
  unfolding lookup
  copied-MovesIn r g moving i d e = moving i (ground (arith, g i))

  -- A leader's group that has reached the asked configuration answers with its shards, and a group
  -- of that very configuration in which they are all to move in takes them: each then waits for the
  -- clean-up and reads, at every key, as in the giving group, or as before where that has no such
  -- key; no other shard changes, and a client's command that either group knows as done is known as
  -- done afterwards. The reply is the error for a wrong configuration all the same.
  pub handed_over :
      args.config_num ≤ src.current_config.num
      → args.config_num ≡ dst.current_config.num
      → ((i : ℕ) → mem i args.shard_ids ≡ true → (s : Shard) × (lookup i src.shards ≡ some s))
      → Each (λ s. s.status ≡ move_in) args.shard_ids dst.shards
      → (moved : ShardOperationReply) × (dst' : ShardKv) × (reply : OpReply) × (get_shards_data true
            args src
          ≡ some moved)
        × (apply_shard_migration moved dst ≡ some (dst', reply))
        × (reply.err ≡ err_wrong_config)
        × ((i : ℕ) → mem i args.shard_ids ≡ true → Received i dst')
        × ((i : ℕ) → mem i args.shard_ids ≡ false → lookup i dst'.shards ≡ lookup i dst.shards)
        × ((client seq : ℕ)
            → HasSeen client seq src.duplicate_table ⊎ HasSeen client seq dst.duplicate_table
            → HasSeen client seq dst'.duplicate_table)
  unfolding lookup
  handed_over le same there moving =
      let (r, e, k, g) = copy_shards_lem args.shard_ids src.shards [] there tt in
      let (shards, f, h) = migrate_shards_lem r dst.shards k (copied-MovesIn r g moving) in
      let moved : ShardOperationReply = record {
        err = ok;
        config_num = args.config_num;
        shard_data = r;
        duplicate_table = copy_table src.duplicate_table;
      } in
      (
        moved,
        record dst {
          shards = shards;
          duplicate_table = merge_table moved.duplicate_table dst.duplicate_table;
        },
        record { value = ""; err = err_wrong_config },
        get_shards_data_eq r le e,
        apply_shard_migration_eq moved shards same f,
        refl,
        λ i m.
            let (s, p) = there i m in
            let (d, q, _) = moving i m in
            (
              s,
              d,
              record { kv = copy_into (copy_data s.kv) d.kv; status = gc },
              p,
              q,
              ground (arith, h i, g i),
              refl,
              λ key. ground (
                arith,
                lookup-copy_into key (copy_data s.kv) d.kv (copy_data-IsDistinct s.kv),
                lookup-copy_data key s.kv,
              ),
            ),
        λ i m. ground (arith, h i, g i),
        λ client seq x. seen client seq x,
      )
