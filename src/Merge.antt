-- ===== src/Merge.antt =====
-- Three-way merges: the case table that `mergeStates` of internal/engine/engine.go and `mergeTables`
-- of internal/model/model.go write out alike, with the merge of two changed rows as a parameter.
pub mod Cells
pub mod Agree
pub mod Columns
pub mod Tables
pub mod Results
use datagit.Prelude.{
  ℕ, Bool, true, false, not, ◌&&◌, ◌||◌, Option, none, some, List, [], ◌∷◌, ◌++◌, Bytes, bytes_ltb,
  bytes_eq, if◌then◌else◌, insertion_sort, dedup,
}
use datagit.Maps.{Map, lookup, put}
use datagit.Maps.Collect.{keys}
use datagit.Core.Value.{null}
use datagit.Core.Row.{Row}
use datagit.Core.Row as Row
use datagit.Core.Key.{Pk}
use datagit.Core.Change.{Table, Conflict, ConflictKind, add_add, delete_modify, sort_conflicts}

-- What is decided for one key: the row to put, if any, or conflicts.
pub data Outcome : Type 0 where
  resolved : Option Row → Outcome
  conflicted : List Conflict → Outcome

-- `sameOpt`: an absent row is `none`.
unfoldable pub same_opt : Option Row → Option Row → Bool
same_opt none none = true
same_opt (some a) (some b) = Row.equal a b
same_opt _ _ = false

abbrev row_conflict : Pk → ConflictKind → Conflict
row_conflict pk kind = record {
  pk = pk;
  kind = kind;
  col = 0;
  has_col = false;
  base = null;
  ours = null;
  theirs = null;
}

-- Both sides changed the row, and differently.
unfoldable pub both_changed :
    (Row → Row → Row → Outcome) → Pk → Option Row → Option Row → Option Row → Outcome
both_changed cells pk none a t = conflicted (row_conflict pk add_add ∷ [])
both_changed cells pk (some b) (some a) (some t) = cells b a t
both_changed cells pk (some b) _ _ = conflicted (row_conflict pk delete_modify ∷ [])

-- The `switch` for one key, with the images of base, ours and theirs.
unfoldable pub merge_key :
    (Row → Row → Row → Outcome) → Pk → Option Row → Option Row → Option Row → Outcome
unfolding same_opt both_changed
merge_key cells pk b a t =
    let a_changed = not (same_opt b a) in
    let t_changed = not (same_opt b t) in
    if not a_changed && not t_changed
    then resolved b
    else if not a_changed
    then resolved t
    else if not t_changed
    then resolved a
    else if same_opt a t
    then resolved a
    else both_changed cells pk b a t

-- The keys of the three tables, sorted.
unfoldable pub all_keys : Table → Table → Table → List Pk
all_keys base ours theirs =
    insertion_sort bytes_ltb (dedup (keys base ++ (keys ours ++ keys theirs)))

place : Pk → Outcome → Table × List Conflict → Table × List Conflict
place pk (resolved none) (out, conflicts) = (out, conflicts)
place pk (resolved (some r)) (out, conflicts) = (put pk r out, conflicts)
place pk (conflicted cc) (out, conflicts) = (out, conflicts ++ cc)

-- The loop over the keys.
unfoldable pub merge_loop : (Pk → Outcome) → List Pk → Table × List Conflict → Table × List Conflict
unfolding place
merge_loop f [] acc = acc
merge_loop f (pk ∷ pks) acc = merge_loop f pks (place pk (f pk) acc)

unfoldable pub three_way :
    (Pk → Row → Row → Row → Outcome) → Table → Table → Table → Table × List Conflict
unfolding merge_key all_keys merge_loop
three_way cells base ours theirs =
    let (out, conflicts) =
      merge_loop
        (λ pk. merge_key (cells pk) pk (lookup pk base) (lookup pk ours) (lookup pk theirs))
        (all_keys base ours theirs) ([], []) in
    (out, sort_conflicts conflicts)
