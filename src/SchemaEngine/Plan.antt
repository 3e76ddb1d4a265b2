-- ===== src/SchemaEngine/Plan.antt =====
-- `Plan` and `RequiresConfirmation` of internal/schemaeng/schema.go, over the statements of an engine.
pub mod Order
pub mod Confirmation
use datagit.Prelude.{ℕ, ◌+◌, Bool, true, false, List, [], ◌∷◌, ◌++◌, Bytes, codes, length, ltb}
use datagit.SchemaEngine.{Column, MigrationClass, additive, widening, narrowing, destructive}
use datagit.SchemaEngine.Diff.{
  Change, ChangeKind, add_column, drop_column, alter_column_type, set_not_null, drop_not_null,
  rename_column,
}

-- `adapter.DDLGen`
pub record DdlGen : Type 0 where
  pub add_column : Bytes → Bytes → Bytes → Bytes
  pub drop_column : Bytes → Bytes → Bytes
  pub deprecate_column : Bytes → Bytes → Bytes
  pub rename_column : Bytes → Bytes → Bytes → Bytes
  pub alter_column_type : Bytes → Bytes → Bytes → Bytes
  pub set_not_null : Bytes → Bytes → Bytes → Bytes
  pub drop_not_null : Bytes → Bytes → Bytes → Bytes
  pub preflight_not_null : Bytes → Bytes → Bytes

-- `adapter.MigrationOp`
pub record MigrationOp : Type 0 where
  pub ordinal : ℕ
  pub kind : Bytes
  pub sql : Bytes
  pub class : MigrationClass
  pub idempotent : Bool

pub record MigrationPlan : Type 0 where
  pub table_id : ℕ
  pub ops : List MigrationOp

-- The strings that the kinds are.
unfoldable pub kind_text : ChangeKind → Bytes
kind_text add_column = codes "add_column"
kind_text drop_column = codes "drop_column"
kind_text alter_column_type = codes "alter_column_type"
kind_text set_not_null = codes "set_not_null"
kind_text drop_not_null = codes "drop_not_null"
kind_text rename_column = codes "rename_column"

-- `add` of `Plan`: the ordinal is the number of operations before.
unfoldable pub add : Bytes → Bytes → MigrationClass → List MigrationOp → List MigrationOp
add kind sql class ops =
    ops
    ++ record { ordinal = length ops; kind = kind; sql = sql; class = class; idempotent = true }
      ∷ []

module _ (d : DdlGen) (physical : Bytes) where
  -- The `switch` on the kind of a change.
  unfoldable pub plan_kind : ChangeKind → Change → List MigrationOp → List MigrationOp
  unfolding add kind_text
  plan_kind add_column c ops =
      add (kind_text add_column) (d.add_column physical c.to.name c.to.sql_type) c.class ops
  plan_kind drop_not_null c ops =
      add (kind_text drop_not_null) (d.drop_not_null physical c.to.name c.to.sql_type) c.class ops
  plan_kind alter_column_type c ops =
      add (kind_text alter_column_type) (d.alter_column_type physical c.to.name c.to.sql_type)
        c.class ops
  plan_kind set_not_null c ops =
      add (kind_text set_not_null) (d.set_not_null physical c.to.name c.to.sql_type) c.class
        (add (codes "preflight_not_null") (d.preflight_not_null physical c.to.name) c.class ops)
  plan_kind rename_column c ops =
      add (kind_text rename_column) (d.rename_column physical c.from.name c.to.name) c.class ops
  plan_kind drop_column c ops =
      add (kind_text drop_column) (d.drop_column physical c.from.name) c.class
        (add (codes "deprecate_column") (d.deprecate_column physical c.from.name) c.class ops)

  unfoldable pub plan_loop : List Change → List MigrationOp → List MigrationOp
  unfolding plan_kind
  plan_loop [] ops = ops
  plan_loop (c ∷ changes) ops = plan_loop changes (plan_kind c.kind c ops)

  -- `Plan`
  unfoldable pub plan : ℕ → List Change → MigrationPlan
  unfolding plan_loop
  plan table_id changes = record { table_id = table_id; ops = plan_loop changes [] }

-- What `RequiresConfirmation` says of one operation.
unfoldable pub concern : MigrationOp → MigrationClass → List Bytes
concern op narrowing = (op.kind ++ codes " narrows the column's value domain") ∷ []
concern op destructive =
    (op.kind ++ codes " breaks direct readers that use it, with no rollout window") ∷ []
concern op additive = []
concern op widening = []

unfoldable pub reasons : List MigrationOp → List Bytes
unfolding concern
reasons [] = []
reasons (op ∷ ops) = concern op op.class ++ reasons ops

-- `RequiresConfirmation`
unfoldable pub requires_confirmation : MigrationPlan → Bool × List Bytes
unfolding reasons
requires_confirmation p = (ltb 0 (length (reasons p.ops)), reasons p.ops)
