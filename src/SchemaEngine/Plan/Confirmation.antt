-- ===== src/SchemaEngine/Plan/Confirmation.antt =====
-- When a plan of internal/schemaeng/schema.go requires a confirmation.
use datagit.Prelude.{
  ℕ, ◌≡◌, refl, Bool, true, false, ◌||◌, List, [], ◌∷◌, ◌++◌, Bytes, length, length-append, ltb,
  arith,
}
use datagit.SchemaEngine.{MigrationClass, additive, widening, narrowing, destructive}
use datagit.SchemaEngine.Diff.{
  Change, ChangeKind, add_column, drop_column, alter_column_type, set_not_null, drop_not_null,
  rename_column,
}
use datagit.SchemaEngine.Plan.{
  DdlGen, MigrationOp, add, plan_kind, plan_loop, plan, concern, reasons, requires_confirmation,
}

unfoldable pub is_risky : MigrationClass → Bool
is_risky additive = false
is_risky widening = false
is_risky narrowing = true
is_risky destructive = true

-- Some change narrows a column or breaks who reads it.
unfoldable pub has_risk : List Change → Bool
unfolding is_risky
has_risk [] = false
has_risk (c ∷ cs) = is_risky c.class || has_risk cs

has_reason : List MigrationOp → Bool
unfolding reasons
has_reason ops = ltb 0 (length (reasons ops))

length-concern :
    (op : MigrationOp) (c : MigrationClass) → ltb 0 (length (concern op c)) ≡ is_risky c
unfolding concern is_risky
length-concern op additive = refl
length-concern op widening = refl
length-concern op narrowing = refl
length-concern op destructive = refl

has_reason-cons :
    (op : MigrationOp) (ops : List MigrationOp)
    → has_reason (op ∷ ops) ≡ (is_risky op.class || has_reason ops)
unfolding has_reason
has_reason-cons op ops =
    ground (arith, length-append (concern op op.class) (reasons ops), length-concern op op.class)

no_reason : has_reason [] ≡ false
unfolding has_reason
no_reason = refl

has_reason-append :
    (ops : List MigrationOp) (op : MigrationOp)
    → has_reason (ops ++ op ∷ []) ≡ (has_reason ops || is_risky op.class)
has_reason-append [] op = ground (arith, has_reason-cons op [], no_reason)
has_reason-append (o ∷ ops) op =
    ground
      (arith, has_reason-cons o (ops ++ op ∷ []), has_reason-append ops op, has_reason-cons o ops)

has_reason-add :
    (kind sql : Bytes) (class : MigrationClass) (ops : List MigrationOp)
    → has_reason (add kind sql class ops) ≡ (has_reason ops || is_risky class)
unfolding add
has_reason-add kind sql class ops = has_reason-append ops _

twice :
    (k l s t : Bytes) (class : MigrationClass) (ops : List MigrationOp)
    → has_reason (add k s class (add l t class ops)) ≡ (has_reason ops || is_risky class)
twice k l s t class ops =
    ground (arith, has_reason-add k s class (add l t class ops), has_reason-add l t class ops)

module _ (d : DdlGen) (physical : Bytes) where
  has_reason-plan_kind :
      (kind : ChangeKind) (c : Change) (ops : List MigrationOp)
      → has_reason (plan_kind d physical kind c ops) ≡ (has_reason ops || is_risky c.class)
  unfolding plan_kind
  has_reason-plan_kind add_column c ops = has_reason-add _ _ c.class ops
  has_reason-plan_kind drop_not_null c ops = has_reason-add _ _ c.class ops
  has_reason-plan_kind alter_column_type c ops = has_reason-add _ _ c.class ops
  has_reason-plan_kind rename_column c ops = has_reason-add _ _ c.class ops
  has_reason-plan_kind set_not_null c ops = twice _ _ _ _ c.class ops
  has_reason-plan_kind drop_column c ops = twice _ _ _ _ c.class ops

  has_reason-plan_loop :
      (cs : List Change) (ops : List MigrationOp)
      → has_reason (plan_loop d physical cs ops) ≡ (has_reason ops || has_risk cs)
  unfolding plan_loop has_risk
  has_reason-plan_loop [] ops = ground arith
  has_reason-plan_loop (c ∷ cs) ops = ground (
    arith,
    has_reason-plan_loop cs (plan_kind d physical c.kind c ops),
    has_reason-plan_kind c.kind c ops,
  )

  -- A plan requires a confirmation exactly when one of the changes that it is made of narrows a column
  -- or is destructive.
  pub confirmation-plan :
      (table_id : ℕ) (cs : List Change)
      → (requires_confirmation (plan d physical table_id cs)).0 ≡ has_risk cs
  unfolding requires_confirmation plan has_reason
  confirmation-plan table_id cs = has_reason-plan_loop cs []
