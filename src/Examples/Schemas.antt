-- ===== src/Examples/Schemas.antt =====
-- The theorems on the schema engine at concrete versions of one table.
use datagit.Prelude.{
  ℕ, ◌≡◌, refl, true, false, not, Bool, ◌&&◌, none, some, List, [], ◌∷◌, Bytes, codes, contains,
  bytes_beq, nat_eq, insertion_sort, if◌then◌else◌, dedup,
}
use datagit.Maps.{lookup}
use datagit.SchemaEngine.{Column, Version, column, same_column, agrees, widening, narrowing}
use datagit.SchemaEngine.Types.{classify_type_change}
use datagit.SchemaEngine.Diff.{diff}
use datagit.SchemaEngine.Diff.Complete.{HasDistinctIds, has_change, has_change-diff}
use datagit.SchemaEngine.Merge.{merge}
use datagit.SchemaEngine.Merge.ThreeWay.{
  three_way, merged, is_conflict, is_removal, is_some, has_conflict,
}
use datagit.SchemaEngine.Merge.Correct.{merge-three_way}
use datagit.SchemaEngine.Postgres.{ddl_gen}
use datagit.SchemaEngine.Plan.{plan}
use datagit.SchemaEngine.Plan.Order.{IsOrdered, plan-IsOrdered}

abbrev column_of : ℕ → Bytes → Bytes → Bool → Column
column_of id name sql_type nullable = record {
  id = id;
  name = name;
  sql_type = sql_type;
  kind = 2;
  nullable = nullable;
}

abbrev version_of : List Column → Version
version_of cs = record { table_id = 1; epoch = 0; columns = cs; pk = 1 ∷ []; dropped = [] }

abbrev sku : Column
sku = column_of 1 (codes "sku") (codes "text") false

abbrev price : Column
price = column_of 2 (codes "price") (codes "integer") true

abbrev wide_price : Column
wide_price = column_of 2 (codes "price") (codes "bigint") true

abbrev base : Version
base = version_of (sku ∷ price ∷ [])

abbrev ours : Version
ours = version_of (sku ∷ wide_price ∷ column_of 3 (codes "margin") (codes "numeric(5,2)") true ∷ [])

abbrev theirs : Version
theirs = version_of (sku ∷ [])

-- One side drops the column that the other alters.
conflict_on_price : has_conflict 2 (merge base ours theirs).conflicts ≡ true
unfolding merge has_conflict column same_column bytes_beq dedup contains insertion_sort
conflict_on_price = refl

merge-three_way_example :
    (column (merge base ours theirs).result 2
      ≡ merged (three_way (column base 2) (column ours 2) (column theirs 2)))
    × (has_conflict 2 (merge base ours theirs).conflicts
        ≡ is_conflict (three_way (column base 2) (column ours 2) (column theirs 2)))
    × (lookup 2 (merge base ours theirs).result.dropped ≡ (
        if is_removal (three_way (column base 2) (column ours 2) (column theirs 2))
          && is_some (column base 2)
        then some 0
        else none))
merge-three_way_example = merge-three_way base ours theirs 2

distinct_base : HasDistinctIds base.columns
unfolding contains
distinct_base = (refl, (refl, tt))

distinct_ours : HasDistinctIds ours.columns
unfolding contains
distinct_ours = (refl, (refl, (refl, tt)))

has_change-diff_example :
    has_change 2 (diff base ours) ≡ not (agrees (column base 2) (column ours 2))
has_change-diff_example = has_change-diff base ours 2 distinct_base distinct_ours

plan-IsOrdered_example : IsOrdered 0 0 (plan ddl_gen (codes "t") 1 (diff ours theirs)).ops
plan-IsOrdered_example = plan-IsOrdered ddl_gen (codes "t") 1 ours theirs

wider : (classify_type_change (codes "INT4") (codes "bigint")).0 ≡ widening
unfolding classify_type_change lookup contains bytes_beq
wider = refl

shorter : (classify_type_change (codes "varchar(50)") (codes "character varying(10)")).0 ≡ narrowing
unfolding classify_type_change lookup contains bytes_beq
shorter = refl

-- The scale of a numeric is not looked at.
scale_lost : (classify_type_change (codes "numeric(12,4)") (codes "decimal(12,2)")).0 ≡ widening
unfolding classify_type_change lookup contains bytes_beq
scale_lost = refl

-- A bound that is new is not looked at.
bound_added : (classify_type_change (codes "varchar") (codes "varchar(10)")).0 ≡ widening
unfolding classify_type_change lookup contains bytes_beq
bound_added = refl
