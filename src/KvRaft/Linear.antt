-- ===== src/KvRaft/Linear.antt =====
-- src/models/kv.go against src/kvraft/state_machine.go: the checker's specification accepts, key by key,
-- what the state machine answers.
use mathlib.Core.List.{append_assoc, append-nil}
use mathlib.Core.List.Memᴰ
use mathlib.Core.List.{Memᴰ}
use Prim.Native.String.{String, ◌++◌ as append_str}
use text.Mathlib.Text.{◌==◌ as str_eq}
use text.Mathlib.TextEquality.{eq_iff}
use nexus_mind.Prelude.{
  ℕ, ◌≡◌, refl, sym, ap, ◌∙◌, inl, inr, Bool-cases, Bool, true, false, ◌&&◌, List, [], ◌∷◌, ◌++◌,
  map, if◌then◌else◌, arith,
}
use nexus_mind.Prelude.Slice.{sort_slice, mem-sort_slice, All}
use nexus_mind.Prelude.Dict.{Dict, string_eq, lookup, insert, lookup-insert, beq_refl}
use nexus_mind.KvRaft.Common.{Op, OperationType, op_get, op_put, op_append}
use nexus_mind.KvRaft.MemoryKv
use nexus_mind.KvRaft.Server.{apply_to_state_machine}
use nexus_mind.KvRaft.KvModel.{
  Operation, init, step, entry, by_key, sorted_keys, less_str, partition,
}

abbrev pub op_code : OperationType → ℕ
op_code op_get = 0
op_code op_put = 1
op_code op_append = 2

-- An operation that the state machine carries out on `kv`, as the checker records it.
unfoldable pub recorded : Op → Dict String String → Operation
unfolding apply_to_state_machine
recorded op kv = record {
  input = record { op = op_code op.op_type; key = op.key; value = op.value };
  output = record { value = ((apply_to_state_machine op kv).1).value };
}

-- The history of commands that run one after the other.
unfoldable pub run : List Op → Dict String String → List Operation
unfolding recorded apply_to_state_machine
run [] kv = []
run (op ∷ ops) kv = recorded op kv ∷ run ops ((apply_to_state_machine op kv).0)

-- The specification takes every step from the state.
unfoldable pub accepts : String → List Operation → Bool
unfolding step
accepts state [] = true
accepts state (v ∷ vs) = let r = step state v.input v.output in r.0 && accepts (r.1) vs

unfoldable pub with_key : String → List Operation → List Operation
with_key key [] = []
with_key key (v ∷ vs) =
    let rest = with_key key vs in if str_eq v.input.key key then v ∷ rest else rest

entry-insert :
    (k key : String) (ops : List Operation) (m : Dict String (List Operation))
    → entry key (insert k ops m) ≡ (if str_eq k key then ops else entry key m)
unfolding entry
entry-insert k key ops m = ground (arith, lookup-insert k key ops m)

entry-by_key :
    (key : String) (history : List Operation) (m : Dict String (List Operation))
    → entry key (by_key history m) ≡ entry key m ++ with_key key history
unfolding by_key with_key
entry-by_key key [] m = sym (append-nil (entry key m))
entry-by_key key (v ∷ history) m = ground (
  arith,
  entry-by_key key history (insert v.input.key (entry v.input.key m ++ (v ∷ [])) m),
  entry-insert v.input.key key (entry v.input.key m ++ (v ∷ [])) m,
  append_assoc (entry key m) (v ∷ []) (with_key key history),
  eq_iff v.input.key key,
)

abbrev value_of : String → Dict String String → String
value_of key kv = MemoryKv.value_or_empty (lookup key kv)

-- The state machine's answer to a command is a step of the specification of its key.
step-recorded :
    (op : Op) (kv : Dict String String)
    → step (value_of op.key kv) (recorded op kv).input (recorded op kv).output
      ≡ (true, value_of op.key ((apply_to_state_machine op kv).0))
unfolding step apply_to_state_machine recorded MemoryKv.get MemoryKv.put MemoryKv.append
    MemoryKv.value_or_empty
step-recorded op kv = ground (
  arith,
  lookup-insert op.key op.key op.value kv,
  lookup-insert op.key op.key (append_str (value_of op.key kv) op.value) kv,
  beq_refl op.key,
  eq_iff (value_of op.key kv) (value_of op.key kv),
)

other_key :
    (op : Op) (key : String) (kv : Dict String String)
    → str_eq op.key key ≡ false
    → value_of key ((apply_to_state_machine op kv).0) ≡ value_of key kv
unfolding apply_to_state_machine MemoryKv.get MemoryKv.put MemoryKv.append MemoryKv.value_or_empty
other_key op key kv e = ground (
  arith,
  e,
  lookup-insert op.key key op.value kv,
  lookup-insert op.key key (append_str (value_of op.key kv) op.value) kv,
)

accepts-step :
    (state next : String) (v : Operation) (vs : List Operation)
    → step state v.input v.output ≡ (true, next)
    → accepts next vs ≡ true
    → accepts state (v ∷ vs) ≡ true
unfolding accepts
accepts-step state next v vs e a = rw (e, accepts) a

-- The specification of a key accepts what the commands on it have been answered.
accepts-run :
    (key : String) (ops : List Op) (kv : Dict String String)
    → accepts (value_of key kv) (with_key key (run ops kv)) ≡ true
unfolding with_key run
accepts-run key [] kv = unfold accepts in refl
accepts-run key (op ∷ ops) kv =
    let kv' = (apply_to_state_machine op kv).0 in
    let ih = accepts-run key ops kv' in
    elim (Bool-cases (str_eq op.key key)) [
      | inl e ↦
          let k : op.key ≡ key = (eq_iff op.key key).0 e in
          let s =
            ap (λ t. step (value_of t kv) (recorded op kv).input (recorded op kv).output) (sym k)
            ∙ step-recorded op kv
            ∙ ap (λ t. (true, value_of t kv')) k in
          let a =
            accepts-step (value_of key kv) (value_of key kv') (recorded op kv)
              (with_key key (run ops kv')) s ih in
          ground (arith, e, a)
      | inr e ↦ ground (arith, e, other_key op key kv e, ih)
    ]

accepts-part : (ops : List Op) (k : String) → accepts init (entry k (by_key (run ops []) [])) ≡ true
unfolding init entry lookup MemoryKv.value_or_empty
accepts-part ops k = rw (entry-by_key k (run ops []) []) (accepts-run k ops [])

accepts-entries :
    (ops : List Op) (keys : List String)
    → All (λ h. accepts init h ≡ true) (map (λ k. entry k (by_key (run ops []) [])) keys)
accepts-entries ops [] = tt
accepts-entries ops (k ∷ keys) = (accepts-part ops k, accepts-entries ops keys)

abbrev keys_of : Dict String (List Operation) → List String
keys_of m = map (λ e. e.0) m

keys-insert_self :
    (k : String) (ops : List Operation) (m : Dict String (List Operation))
    → Memᴰ k (keys_of (insert k ops m))
unfolding insert
keys-insert_self k ops [] = Memᴰ.head refl
keys-insert_self k ops ((j, w) ∷ m) = elim (Bool-cases (str_eq j k)) [
  | inl e ↦ rw (e, insert) (Memᴰ.head refl)
  | inr e ↦ rw (e, insert) (Memᴰ.tail (keys-insert_self k ops m))
]

keys-insert :
    (k key : String) (ops : List Operation) (m : Dict String (List Operation))
    → Memᴰ key (keys_of m)
    → Memᴰ key (keys_of (insert k ops m))
unfolding insert
keys-insert k key ops [] h = elim h [ ]
keys-insert k key ops ((j, w) ∷ m) (Memᴰ.head q) = elim (Bool-cases (str_eq j k)) [
  | inl e ↦ rw (e, insert) (Memᴰ.head (q ∙ (eq_iff j k).0 e))
  | inr e ↦ rw (e, insert) (Memᴰ.head q)
]
keys-insert k key ops ((j, w) ∷ m) (Memᴰ.tail n) = elim (Bool-cases (str_eq j k)) [
  | inl e ↦ rw (e, insert) (Memᴰ.tail n)
  | inr e ↦ rw (e, insert) (Memᴰ.tail (keys-insert k key ops m n))
]

keys-by_key :
    (history : List Operation) (key : String) (m : Dict String (List Operation))
    → Memᴰ key (keys_of m)
    → Memᴰ key (keys_of (by_key history m))
unfolding by_key
keys-by_key [] key m h = h
keys-by_key (v ∷ history) key m h =
    keys-by_key history key (insert v.input.key (entry v.input.key m ++ (v ∷ [])) m)
      (keys-insert v.input.key key (entry v.input.key m ++ (v ∷ [])) m h)

by_key-mem :
    (history : List Operation) (v : Operation) (m : Dict String (List Operation))
    → Memᴰ v history
    → Memᴰ v.input.key (keys_of (by_key history m))
unfolding by_key
by_key-mem [] v m h = elim h [ ]
by_key-mem (w ∷ history) v m (Memᴰ.head q) =
    keys-by_key history v.input.key (insert w.input.key (entry w.input.key m ++ (w ∷ [])) m) (
      Memᴰ.cast (ap (λ (t : Operation). t.input.key) q)
        (keys-insert_self w.input.key (entry w.input.key m ++ (w ∷ [])) m))
by_key-mem (w ∷ history) v m (Memᴰ.tail h) =
    by_key-mem history v (insert w.input.key (entry w.input.key m ++ (w ∷ [])) m) h

mem-map : {A B : Type 0} (f : A → B) (a : A) (xs : List A) → Memᴰ a xs → Memᴰ (f a) (map f xs)
mem-map f a [] m = elim m [ ]
mem-map f a (x ∷ xs) (Memᴰ.head q) = Memᴰ.head (ap f q)
mem-map f a (x ∷ xs) (Memᴰ.tail m) = Memᴰ.tail (mem-map f a xs m)

empty_entry :
    (key : String) (history : List Operation)
    → entry key [] ++ with_key key history ≡ with_key key history
unfolding entry lookup
empty_entry key history = refl

partition-with_key :
    (history : List Operation) (v : Operation)
    → Memᴰ v history
    → Memᴰ (with_key v.input.key history) (partition history)
unfolding partition sorted_keys
partition-with_key history v m =
    let d = by_key history [] in
    let e : entry v.input.key d ≡ with_key v.input.key history =
      entry-by_key v.input.key history [] ∙ empty_entry v.input.key history in
    Memᴰ.cast (sym e) (
      mem-map (λ k. entry k d) v.input.key (sort_slice less_str (keys_of d))
        (mem-sort_slice less_str v.input.key (keys_of d) (by_key-mem history v [] m)))

-- If commands run one after the other on an empty map, then the checker's specification of a single
-- key accepts every part of their history, and each operation of the history stands in a part that
-- holds all the operations on its key.
pub partition-run :
    (ops : List Op)
    → All (λ h. accepts init h ≡ true) (partition (run ops []))
      × ((v : Operation)
          → Memᴰ v (run ops [])
          → Memᴰ (with_key v.input.key (run ops [])) (partition (run ops [])))
unfolding partition
partition-run ops = (
  accepts-entries ops (sorted_keys (by_key (run ops []) [])),
  λ v m. partition-with_key (run ops []) v m,
)
