-- ===== src/ShardCtrler/Once.antt =====
-- src/shardctrler/server.go: the log's commands on the configurations: none panics that names a
-- shard, and each changes them once.

use mathlib.Core.List.{append_assoc}
use nexus_mind.Prelude.{
  ℕ, ◌≤◌, ◌<◌, ◌≡◌, refl, ◌≢◌, ◌⊎◌, inl, inr, Bool, false, not, ◌&&◌, List, [], ◌∷◌, ◌++◌, Option,
  some, arith, ap, ◌∙◌, leb, ◌==◌, if◌then◌else◌, ◌>>=◌, length, Bool-cases, Option-cases, some-inj,
  >>=-eq-some,
}
use nexus_mind.Prelude.Int.{ℤ, pos, negsuc}
use nexus_mind.Prelude.Dict.{nat_eq, lookup, insert, lookup-insert}
use nexus_mind.ShardCtrler.Common.{
  n_shards, Config, ok, OperationType, op_join, op_leave, op_move, op_query, Op, OpReply,
  LastOperationInfo,
}
use nexus_mind.ShardCtrler.StateMachine.{join, leave, move, query}
use nexus_mind.ShardCtrler.History.{IsHistory, Grows, changes_grow, query_lem}
use nexus_mind.ShardCtrler.Server.{
  ShardCtrler, is_query, request_duplicated, stored_reply, changed, apply_to_state_machine,
  apply_op, no_config,
}

-- The commands of the log, one after the other.
unfoldable pub run_ops : List Op → ShardCtrler → Option ShardCtrler
run_ops [] sc = some sc
run_ops (op ∷ ops) sc = (apply_op op sc >>= λ p. run_ops ops p.0)

-- A move's shard is an index of the array.
abbrev pub NamesShard : Op → Type 0
NamesShard op = (op.op_type ≢ op_move) ⊎ ((s : ℕ) × (op.shard ≡ pos s) × (s < n_shards))

abbrev pub AllNameShards : List Op → Type 0
AllNameShards [] = Unit {0}
AllNameShards (op ∷ ops) = NamesShard op × AllNameShards ops

-- The later history has all the configurations of the earlier one, in their places.
abbrev pub Extends : List Config → List Config → Type 0
Extends a b = (more : List Config) × (b ≡ a ++ more)

Extends-trans : (a b c : List Config) → Extends a b → Extends b c → Extends a c
Extends-trans a b c (m, e) (n, f) = (m ++ n, f ∙ ap (λ l. l ++ n) e ∙ append_assoc a m n)

Extends-refl : (a : List Config) → Extends a a
Extends-refl [] = ([], refl)
Extends-refl (x ∷ a) = let (m, e) = Extends-refl a in (m, ap (λ l. x ∷ l) e)

abbrev Applies : Op → List Config → Type 0
Applies op configs =
    (p : List Config × OpReply) × (apply_to_state_machine op configs ≡ some p)
    × IsHistory p.0
    × Extends configs p.0
    × (p.1.err ≡ ok)

-- What the three changes have in common.
changed_by :
    (configs : List Config) (r : Option (List Config)) (a : List Config)
    → r ≡ some a
    → Grows configs a
    → IsHistory a
    → (p : List Config × OpReply) × ((r >>= λ cs. some (changed cs)) ≡ some p)
      × IsHistory p.0
      × Extends configs p.0
      × (p.1.err ≡ ok)
unfolding changed
changed_by configs r a e (c, q, _, _) h =
    ((a, record { controller_config = no_config; err = ok }), rw e refl, h, (c ∷ [], q), refl)

query-Applies :
    (n : ℤ) (configs : List Config) → IsHistory configs → (c : Config) × (query n configs ≡ some c)
query-Applies (negsuc n) configs h = let (c, e, _) = (query_lem configs h).2 n in (c, e)
query-Applies (pos n) configs h =
    let (here, beyond, _) = query_lem configs h in
    elim (Bool-cases (leb (length configs) n)) [
      | inl y ↦ let (c, e, _) = beyond n (ground arith) in (c, e)
      | inr y ↦ let (c, e, _) = here n (ground arith) in (c, e)
    ]

apply_by_type :
    (op : Op) (configs : List Config) (t : OperationType)
    → op.op_type ≡ t
    → NamesShard op
    → IsHistory configs
    → Applies op configs
unfolding apply_to_state_machine
apply_by_type op configs op_query t v h =
    let (c, e) = query-Applies op.num configs h in
    (
      (configs, record { controller_config = c; err = ok }),
      rw (t, e) refl,
      h,
      Extends-refl configs,
      refl,
    )
apply_by_type op configs op_join t v h =
    let ((a, e, g, w), _, _, _, _) = changes_grow op.servers op.gids op.gid configs h in
    let (p, q, k, x, o) = changed_by configs (join op.servers configs) a e g w in
    (p, rw t q, k, x, o)
apply_by_type op configs op_leave t v h =
    let (_, (a, e, g, w), _, _, _) = changes_grow op.servers op.gids op.gid configs h in
    let (p, q, k, x, o) = changed_by configs (leave op.gids configs) a e g w in (p, rw t q, k, x, o)
apply_by_type op configs op_move t (inl n) h = absurd (n t)
apply_by_type op configs op_move t (inr (s, z, l)) h =
    let (_, _, m, _, _) = changes_grow op.servers op.gids op.gid configs h in
    let (a, e, g, w) = m s l in
    let (p, q, k, x, o) = changed_by configs (move (pos s) op.gid configs) a e g w in
    (p, rw (t, z) q, k, x, o)

apply_op_lem :
    (op : Op) (sc : ShardCtrler)
    → NamesShard op
    → IsHistory sc.state_machine
    → (p : ShardCtrler × OpReply) × (apply_op op sc ≡ some p)
      × IsHistory p.0.state_machine
      × Extends sc.state_machine p.0.state_machine
unfolding apply_op
apply_op_lem op sc v h =
    let dup =
      not (is_query op.op_type) && request_duplicated sc.duplicate_table op.client_id op.seq_id in
    elim (Bool-cases dup) [
      | inl y ↦ (
        (sc, stored_reply sc.duplicate_table op.client_id),
        ground arith,
        h,
        Extends-refl sc.state_machine,
      )
      | inr n ↦
          let (p, e, k, x, _) = apply_by_type op sc.state_machine op.op_type refl v h in
          (
            (
              record sc {
                state_machine = p.0;
                duplicate_table =
                    if is_query op.op_type
                    then sc.duplicate_table
                    else insert op.client_id (record { seq_id = op.seq_id; reply = p.1 })
                        sc.duplicate_table;
              },
              p.1,
            ),
            rw (n, e) refl,
            k,
            x,
          )
    ]

-- A server with a history of configurations can apply any log whose moves name a shard: no command
-- panics. After it the configurations are a history again, and each that was there before still is,
-- in its place.
pub run_ops_total :
    (ops : List Op) (sc : ShardCtrler)
    → AllNameShards ops
    → IsHistory sc.state_machine
    → (sc' : ShardCtrler) × (run_ops ops sc ≡ some sc')
      × IsHistory sc'.state_machine
      × Extends sc.state_machine sc'.state_machine
unfolding run_ops
run_ops_total [] sc v h = (sc, refl, h, Extends-refl sc.state_machine)
run_ops_total (op ∷ ops) sc v h =
    let (p, e, k, x) = apply_op_lem op sc v.0 h in
    let (sc', f, k', x') = run_ops_total ops p.0 v.1 k in
    (sc', rw e f, k', Extends-trans sc.state_machine p.0.state_machine sc'.state_machine x x')

-- The client's change `seq`, or a later one, has been applied.
abbrev pub HasSeen : ℕ → ℕ → ShardCtrler → Type 0
HasSeen client seq sc =
    (info : LastOperationInfo) × (lookup client sc.duplicate_table ≡ some info)
    × (seq ≤ info.seq_id)

-- A command that is neither a query nor a duplicate.
abbrev pub is_new : Op → ShardCtrler → Bool
is_new op sc =
    not (is_query op.op_type) && not (request_duplicated sc.duplicate_table op.client_id op.seq_id)

lookup-apply_op :
    (op : Op) (sc : ShardCtrler) (p : ShardCtrler × OpReply) (client : ℕ)
    → apply_op op sc ≡ some p
    → lookup client p.0.duplicate_table ≡ (
        if is_new op sc && op.client_id == client
        then some (record { seq_id = op.seq_id; reply = p.1 })
        else lookup client sc.duplicate_table)
unfolding apply_op
lookup-apply_op op sc p client e = ground (
  arith,
  lookup-insert op.client_id client (record { seq_id = op.seq_id; reply = p.1 }) sc.duplicate_table,
)

apply_op-HasSeen :
    (op : Op) (sc : ShardCtrler) (p : ShardCtrler × OpReply) (client seq : ℕ)
    → apply_op op sc ≡ some p
    → HasSeen client seq sc
    → HasSeen client seq p.0
unfolding request_duplicated
apply_op-HasSeen op sc p client seq e (info, f, l) =
    elim (Option-cases (lookup client p.0.duplicate_table)) [
      | inl n ↦ absurd (ground (arith, lookup-apply_op op sc p client e))
      | inr (new, q) ↦ (new, q, ground (arith, lookup-apply_op op sc p client e))
    ]

apply_op-seen_self :
    (op : Op) (sc : ShardCtrler) (p : ShardCtrler × OpReply)
    → apply_op op sc ≡ some p
    → is_query op.op_type ≡ false
    → HasSeen op.client_id op.seq_id p.0
unfolding request_duplicated
apply_op-seen_self op sc p e g = elim (Option-cases (lookup op.client_id p.0.duplicate_table)) [
  | inl n ↦ absurd (ground (arith, lookup-apply_op op sc p op.client_id e))
  | inr (new, q) ↦ (new, q, ground (arith, lookup-apply_op op sc p op.client_id e))
]

run_ops-HasSeen :
    (ops : List Op) (sc sc' : ShardCtrler) (client seq : ℕ)
    → run_ops ops sc ≡ some sc'
    → HasSeen client seq sc
    → HasSeen client seq sc'
unfolding run_ops
run_ops-HasSeen [] sc sc' client seq e h = let same = some-inj sc sc' e in rw same at h
run_ops-HasSeen (op ∷ ops) sc sc' client seq e h =
    let (p, f, g) = >>=-eq-some (apply_op op sc) (λ p. run_ops ops p.0) e in
    run_ops-HasSeen ops p.0 sc' client seq g (apply_op-HasSeen op sc p client seq f h)

-- Once a client's change of the configuration is applied, the same one, and any earlier one of that
-- client, leaves the server as it is, whatever was applied in between, and is answered with the
-- reply that stands for the client.
pub repeat_no_effect :
    (op again : Op) (ops : List Op) (sc later : ShardCtrler) (p : ShardCtrler × OpReply)
    → is_query op.op_type ≡ false
    → is_query again.op_type ≡ false
    → again.client_id ≡ op.client_id
    → again.seq_id ≤ op.seq_id
    → apply_op op sc ≡ some p
    → run_ops ops p.0 ≡ some later
    → apply_op again later ≡ some (later, stored_reply later.duplicate_table op.client_id)
unfolding apply_op request_duplicated
repeat_no_effect op again ops sc later p g g' same le e f =
    let (info, q, l) =
      run_ops-HasSeen ops p.0 later op.client_id op.seq_id f (apply_op-seen_self op sc p e g) in
    ground arith
