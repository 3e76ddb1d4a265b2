-- ===== src/SchemaEngine/Diff.antt =====
-- `Diff` of internal/schemaeng/schema.go.
pub mod Complete
use datagit.Prelude.{
  ℕ, Bool, true, false, not, ◌&&◌, ◌||◌, Option, none, some, List, [], ◌∷◌, ◌++◌, Bytes, codes,
  nat_beq, nat_eq, ltb, bytes_beq, contains, insertion_sort, map, if◌then◌else◌,
}
use datagit.Maps.{Map, lookup, put}
use datagit.Core.Mask.{ColId}
use datagit.SchemaEngine.{
  Column, no_column, Version, MigrationClass, additive, widening, narrowing, destructive,
  class_number,
}
use datagit.SchemaEngine.Types.{classify_type_change}

pub data ChangeKind : Type 0 where
  add_column drop_column alter_column_type set_not_null drop_not_null rename_column : ChangeKind

pub record Change : Type 0 where
  pub kind : ChangeKind
  pub col : ColId
  pub name : Bytes
  pub from : Column
  pub to : Column
  pub class : MigrationClass
  pub reason : Bytes

-- `have[c.ID] = c` for each column.
unfoldable pub have_from : List Column → Map ColId Column → Map ColId Column
have_from [] have = have
have_from (c ∷ cs) have = have_from cs (put c.id c have)

-- The `switch` of `Diff` on a column that is on both sides.
unfoldable pub alter : Column → Column → List Change
unfolding classify_type_change
alter old c =
    if not (bytes_beq old.name c.name) && bytes_beq old.sql_type c.sql_type
    then record {
      kind = rename_column;
      col = c.id;
      name = c.name;
      from = old;
      to = c;
      class = destructive;
      reason = codes "existing readers query the old name and will break";
    }
      ∷ []
    else if not (bytes_beq old.sql_type c.sql_type)
    then record {
      kind = alter_column_type;
      col = c.id;
      name = c.name;
      from = old;
      to = c;
      class = (classify_type_change old.sql_type c.sql_type).0;
      reason = (classify_type_change old.sql_type c.sql_type).1;
    }
      ∷ []
    else if old.nullable && not c.nullable
    then record {
      kind = set_not_null;
      col = c.id;
      name = c.name;
      from = old;
      to = c;
      class = narrowing;
      reason = codes "requires a pre-flight scan proving no existing row is null";
    }
      ∷ []
    else if not old.nullable && c.nullable
    then record {
      kind = drop_not_null;
      col = c.id;
      name = c.name;
      from = old;
      to = c;
      class = widening;
      reason = codes "existing readers keep working; the column merely admits more values";
    }
      ∷ []
    else []

-- `case !existed`
unfoldable pub add : Column → Change
add c = record {
  kind = add_column;
  col = c.id;
  name = c.name;
  from = no_column;
  to = c;
  class = additive;
  reason = codes "a new nullable column is invisible to existing readers, which simply ignore it";
}

unfoldable pub drop : Column → Change
drop c = record {
  kind = drop_column;
  col = c.id;
  name = c.name;
  from = c;
  to = no_column;
  class = destructive;
  reason =
      codes
        "every direct reader selecting this column breaks the moment it is dropped, with no rollout window";
}

-- `for _, c := range to.Columns`
unfoldable pub changed_columns : Map ColId Column → List Column → List Change
unfolding alter add
changed_columns have [] = []
changed_columns have (c ∷ cs) =
    elim (lookup c.id have) as (λ o. List Change) [ none ↦ add c ∷ [] | some old ↦ alter old c ]
    ++ changed_columns have cs

-- `for _, c := range from.Columns`, with the ids in `seen`.
unfoldable pub dropped_columns : List ColId → List Column → List Change
unfolding drop
dropped_columns seen [] = []
dropped_columns seen (c ∷ cs) =
    let rest = dropped_columns seen cs in if contains c.id seen then rest else drop c ∷ rest

-- Additive first, destructive last.
unfoldable pub change_ltb : Change → Change → Bool
unfolding class_number
change_ltb a b =
    if not (nat_beq (class_number a.class) (class_number b.class))
    then ltb (class_number a.class) (class_number b.class)
    else ltb a.col b.col

-- `Diff`
unfoldable pub diff : Version → Version → List Change
unfolding have_from changed_columns dropped_columns change_ltb
diff from to = insertion_sort change_ltb (
    changed_columns (have_from from.columns []) to.columns
    ++ dropped_columns (map (λ c. c.id) to.columns) from.columns)
