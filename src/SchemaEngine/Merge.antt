-- ===== src/SchemaEngine/Merge.antt =====
-- `Merge` of internal/schemaeng/schema.go.
pub mod ThreeWay
pub mod Correct
use datagit.Prelude.{
  ℕ, Bool, true, false, not, ◌&&◌, Option, none, some, List, [], ◌∷◌, ◌++◌, Bytes, codes, nat_eq,
  ltb, dedup, insertion_sort, map, if◌then◌else◌,
}
use datagit.Maps.{Map, put}
use datagit.Core.Mask.{ColId}
use datagit.SchemaEngine.{Column, Version, column, same_column}

pub record SchemaConflict : Type 0 where
  pub col : ColId
  pub name : Bytes
  pub reason : Bytes

pub record MergeOutcome : Type 0 where
  pub result : Version
  pub conflicts : List SchemaConflict

-- `describe`
unfoldable pub describe : Column → Bytes
describe c =
    let n = if c.nullable then codes "NULL" else codes "NOT NULL" in
    c.name ++ (codes " " ++ (c.sql_type ++ (codes " " ++ n)))

-- What the body of the loop does with a column: append one to the result, append a conflict, mark the
-- id as dropped, or nothing.
pub data Verdict : Type 0 where
  keep : Column → Verdict
  clash : SchemaConflict → Verdict
  gone : Verdict
  nothing : Verdict

altered_apart : ColId → Bool → Column → Column → SchemaConflict
unfolding describe
altered_apart id in_base a t = record {
  col = id;
  name = a.name;
  reason =
      codes "both branches "
      ++ ((if in_base then codes "altered" else codes "added")
          ++ (codes " this column differently: " ++ (describe a ++ (codes " vs " ++ describe t))));
}

dropped_altered : ColId → Column → SchemaConflict
dropped_altered id c = record {
  col = id;
  name = c.name;
  reason = codes "one branch dropped this column while the other altered it";
}

-- `case inOurs && inTheirs`
unfoldable pub in_both : ColId → Option Column → Column → Column → Verdict
unfolding altered_apart
in_both id none a t = if same_column a t then keep a else clash (altered_apart id false a t)
in_both id (some b) a t =
    if same_column a t
    then keep a
    else if same_column a b
    then keep t
    else if same_column t b
    then keep a
    else clash (altered_apart id true a t)

-- `case inOurs && !inTheirs` and `case !inOurs && inTheirs`
unfoldable pub in_one : ColId → Option Column → Column → Verdict
unfolding dropped_altered
in_one id none a = keep a
in_one id (some b) a = if not (same_column a b) then clash (dropped_altered id a) else gone

-- The `switch` of the loop.
unfoldable pub merge_column : ColId → Option Column → Option Column → Option Column → Verdict
unfolding in_both in_one
merge_column id b (some a) (some t) = in_both id b a t
merge_column id b (some a) none = in_one id b a
merge_column id b none (some t) = in_one id b t
merge_column id (some b) none none = gone
merge_column id none none none = nothing

unfoldable pub record_verdict : ColId → Verdict → MergeOutcome → MergeOutcome
record_verdict id (keep c) out = record out {
  result = record out.result { columns = out.result.columns ++ c ∷ [] };
}
record_verdict id (clash conflict) out = record out { conflicts = out.conflicts ++ conflict ∷ [] }
record_verdict id gone out = record out {
  result = record out.result { dropped = put id 0 out.result.dropped };
}
record_verdict id nothing out = out

-- `for _, id := range sorted`
unfoldable pub merge_loop : Version → Version → Version → List ColId → MergeOutcome → MergeOutcome
unfolding merge_column record_verdict
merge_loop base ours theirs [] out = out
merge_loop base ours theirs (id ∷ ids) out =
    merge_loop base ours theirs ids
      (record_verdict id (merge_column id (column base id) (column ours id) (column theirs id)) out)

-- The ids of the three versions, sorted.
unfoldable pub all_ids : Version → Version → Version → List ColId
all_ids base ours theirs =
    insertion_sort ltb (dedup (map (λ c. c.id) (base.columns ++ (ours.columns ++ theirs.columns))))

-- `out` before the loop.
unfoldable pub start : Version → MergeOutcome
start base = record {
  result = record { table_id = base.table_id; epoch = 0; columns = []; pk = base.pk; dropped = [] };
  conflicts = [];
}

-- `Merge`
unfoldable pub merge : Version → Version → Version → MergeOutcome
unfolding merge_loop all_ids start
merge base ours theirs = merge_loop base ours theirs (all_ids base ours theirs) (start base)
