-- ===== src/SchemaEngine.antt =====
-- internal/schemaeng/schema.go: versions of a table's schema, and the columns and classes of
-- internal/adapter/adapter.go that they are made of.
pub mod Types
pub mod Diff
pub mod Merge
pub mod Plan
pub mod Postgres
pub mod Mysql
use datagit.Prelude.{
  ℕ, Bool, true, false, not, ◌&&◌, Option, none, some, List, [], ◌∷◌, Bytes, nat_beq, nat_eq,
  bytes_beq, if◌then◌else◌,
}
use datagit.Maps.{Map, lookup, put}
use datagit.Core.Mask.{ColId}
use datagit.Core.Row.{Row}
use datagit.Core.Value.{Value}

-- `adapter.Column`; the kind is its number.
pub record Column : Type 0 where
  pub id : ColId
  pub name : Bytes
  pub sql_type : Bytes
  pub kind : ℕ
  pub nullable : Bool

-- `adapter.Column{}`
abbrev pub no_column : Column
no_column = record { id = 0; name = []; sql_type = []; kind = 0; nullable = false }

-- The epochs, of the version and of the dropped columns, are int64 patterns.
pub record Version : Type 0 where
  pub table_id : ℕ
  pub epoch : ℕ
  pub columns : List Column
  pub pk : List ColId
  pub dropped : Map ColId ℕ

-- The loop of `Version.Column`.
unfoldable pub find_column : ColId → List Column → Option Column
find_column id [] = none
find_column id (c ∷ cs) = if nat_beq c.id id then some c else find_column id cs

-- `Version.Column`
unfoldable pub column : Version → ColId → Option Column
unfolding find_column
column v id = find_column id v.columns

project_from : Map ColId Value → List Column → Map ColId Value → Map ColId Value
project_from row [] out = out
project_from row (c ∷ cs) out =
    project_from row cs (elim (lookup c.id row) as (λ o. Map ColId Value) [
      | none ↦ out
      | some val ↦ put c.id val out
    ])

-- `Version.Project`: a nil row has no columns, and what is projected is not nil.
unfoldable pub project : Version → Row → Row
unfolding project_from
project v row = some (elim row [ none ↦ [] | some cells ↦ project_from cells v.columns [] ])

-- `sameColumn`
unfoldable pub same_column : Column → Column → Bool
same_column a b =
    bytes_beq a.name b.name
    && bytes_beq a.sql_type b.sql_type
    && (if a.nullable then b.nullable else not b.nullable)

-- A column on two sides, with one name, type and nullability, or on none.
abbrev pub agrees : Option Column → Option Column → Bool
agrees none none = true
agrees (some a) (some b) = same_column a b
agrees _ _ = false

-- `adapter.MigrationClass`
pub data MigrationClass : Type 0 where
  additive widening narrowing destructive : MigrationClass

unfoldable pub class_number : MigrationClass → ℕ
class_number additive = 1
class_number widening = 2
class_number narrowing = 3
class_number destructive = 4
