-- ===== src/SchemaEngine/Plan/Order.antt =====
-- The order of the operations in `Plan` of internal/schemaeng/schema.go, and what needs a confirmation.
use datagit.Prelude.{
  ℕ, ◌+◌, ◌≤◌, ◌≡◌, refl, inl, inr, true, false, List, [], ◌∷◌, ◌++◌, Bytes, length, map, insert,
  insertion_sort, Bool-cases, arith,
}
use datagit.SchemaEngine.{Version, MigrationClass, class_number}
use datagit.SchemaEngine.Diff.{
  Change, ChangeKind, add_column, drop_column, alter_column_type, set_not_null, drop_not_null,
  rename_column, change_ltb, diff, changed_columns, dropped_columns, have_from,
}
use datagit.SchemaEngine.Plan.{DdlGen, MigrationOp, add, plan_kind, plan_loop, plan}

-- The changes have classes from `n` on, in ascending order.
abbrev pub IsAscending : ℕ → List Change → Type 0
IsAscending n [] = Unit
IsAscending n (c ∷ cs) = (n ≤ class_number c.class) × IsAscending (class_number c.class) cs

IsAscending-weaken : (m n : ℕ) (cs : List Change) → m ≤ n → IsAscending n cs → IsAscending m cs
IsAscending-weaken m n [] h k = tt
IsAscending-weaken m n (c ∷ cs) h k = (omega (arith, k.0), k.1)

less_class : (a b : Change) → change_ltb a b ≡ true → class_number a.class ≤ class_number b.class
unfolding change_ltb
less_class a b h = ground arith

not_less_class :
    (a b : Change) → change_ltb a b ≡ false → class_number b.class ≤ class_number a.class
unfolding change_ltb
not_less_class a b h = ground arith

insert-IsAscending :
    (n : ℕ) (c : Change) (cs : List Change)
    → n ≤ class_number c.class
    → IsAscending n cs
    → IsAscending n (insert change_ltb c cs)
unfolding insert
insert-IsAscending n c [] h k = (h, tt)
insert-IsAscending n c (d ∷ cs) h k = elim (Bool-cases (change_ltb c d)) [
  | inl first ↦ rw first (h, (less_class c d first, k.1))
  | inr later ↦
      rw later (k.0, insert-IsAscending (class_number d.class) c cs (not_less_class c d later) k.1)
]

sort-IsAscending : (cs : List Change) → IsAscending 0 (insertion_sort change_ltb cs)
unfolding insertion_sort
sort-IsAscending [] = tt
sort-IsAscending (c ∷ cs) =
    insert-IsAscending 0 c (insertion_sort change_ltb cs) (omega arith) (sort-IsAscending cs)

-- The operations are numbered from `i` on, and their classes ascend from `n` on.
abbrev pub IsOrdered : ℕ → ℕ → List MigrationOp → Type 0
IsOrdered i n [] = Unit
IsOrdered i n (op ∷ ops) =
    (op.ordinal ≡ i) × (n ≤ class_number op.class) × IsOrdered (i + 1) (class_number op.class) ops

last_class : ℕ → List MigrationOp → ℕ
last_class n [] = n
last_class n (op ∷ ops) = last_class (class_number op.class) ops

last_class-append :
    (n : ℕ) (ops : List MigrationOp) (op : MigrationOp)
    → last_class n (ops ++ op ∷ []) ≡ class_number op.class
unfolding last_class
last_class-append n [] op = refl
last_class-append n (o ∷ ops) op = last_class-append (class_number o.class) ops op

append-IsOrdered :
    (i n : ℕ) (ops : List MigrationOp) (op : MigrationOp)
    → IsOrdered i n ops
    → op.ordinal ≡ i + length ops
    → last_class n ops ≤ class_number op.class
    → IsOrdered i n (ops ++ op ∷ [])
unfolding last_class
append-IsOrdered i n [] op h e k = (omega arith, k, tt)
append-IsOrdered i n (o ∷ ops) op h e k =
    (h.0, h.1, append-IsOrdered (i + 1) (class_number o.class) ops op h.2 (omega arith) k)

-- The operations so far are in order and end with a class of at most `k`.
abbrev EndsBy : ℕ → List MigrationOp → Type 0
EndsBy k ops = IsOrdered 0 0 ops × (last_class 0 ops ≤ k)

add-EndsBy :
    (kind sql : Bytes) (class : MigrationClass) (ops : List MigrationOp)
    → EndsBy (class_number class) ops
    → EndsBy (class_number class) (add kind sql class ops)
unfolding add
add-EndsBy kind sql class ops h =
    let op : MigrationOp = record {
      ordinal = length ops;
      kind = kind;
      sql = sql;
      class = class;
      idempotent = true;
    } in
    (append-IsOrdered 0 0 ops op h.0 (omega arith) h.1, omega (arith, last_class-append 0 ops op))

module _ (d : DdlGen) (physical : Bytes) where
  plan_kind-EndsBy :
      (kind : ChangeKind) (c : Change) (ops : List MigrationOp)
      → EndsBy (class_number c.class) ops
      → EndsBy (class_number c.class) (plan_kind d physical kind c ops)
  unfolding plan_kind
  plan_kind-EndsBy add_column c ops h = add-EndsBy _ _ c.class ops h
  plan_kind-EndsBy drop_not_null c ops h = add-EndsBy _ _ c.class ops h
  plan_kind-EndsBy alter_column_type c ops h = add-EndsBy _ _ c.class ops h
  plan_kind-EndsBy rename_column c ops h = add-EndsBy _ _ c.class ops h
  plan_kind-EndsBy set_not_null c ops h = add-EndsBy _ _ c.class _ (add-EndsBy _ _ c.class ops h)
  plan_kind-EndsBy drop_column c ops h = add-EndsBy _ _ c.class _ (add-EndsBy _ _ c.class ops h)

  plan_loop-IsOrdered :
      (n : ℕ) (cs : List Change) (ops : List MigrationOp)
      → IsAscending n cs
      → EndsBy n ops
      → IsOrdered 0 0 (plan_loop d physical cs ops)
  unfolding plan_loop
  plan_loop-IsOrdered n [] ops h k = k.0
  plan_loop-IsOrdered n (c ∷ cs) ops h k =
      plan_loop-IsOrdered (class_number c.class) cs (plan_kind d physical c.kind c ops) h.1
        (plan_kind-EndsBy c.kind c ops (k.0, omega (arith, k.1, h.0)))

  -- A plan made of a `Diff` numbers its operations from zero, one by one, and has them in ascending
  -- class: additive, widening, narrowing, destructive.
  pub plan-IsOrdered :
      (table_id : ℕ) (from to : Version)
      → IsOrdered 0 0 (plan d physical table_id (diff from to)).ops
  unfolding plan diff last_class
  plan-IsOrdered table_id from to =
      plan_loop-IsOrdered 0
        (insertion_sort change_ltb (
          changed_columns (have_from from.columns []) to.columns
          ++ dropped_columns (map (λ c. c.id) to.columns) from.columns))
        [] (sort-IsAscending _) (tt, omega arith)
