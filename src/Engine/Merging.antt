-- ===== src/Engine/Merging.antt =====
-- `applyMergeResult`, `Merge` and `UpdateFromParent` of internal/engine/engine.go.
pub mod Plan
pub mod Applied
pub mod Landed
pub mod Merged
pub mod Absorbed
use datagit.Prelude.{
  ℕ, ◌+◌, Bool, true, false, Option, none, some, List, [], ◌∷◌, Bytes, bytes_beq, bytes_eq,
  if◌then◌else◌, Result, ok, err, no_branch, no_parent, merge_bases, nil_pointer,
}
use datagit.Maps.{lookup, put}
use datagit.Core.Mask.{ColId}
use datagit.Core.Row.{Row, mask_of}
use datagit.Core.Row as Row
use datagit.Core.Key.{Pk}
use datagit.Core.Change.{insert, update, delete, Table, table_keys, Conflict}
use datagit.Merge.Cells.{merge_states}
use datagit.Engine.State.{Version, Branch, Engine, max_seq, commit_name, inherited_chain_from}
use datagit.Engine.Resolve.{resolve, state_at_commit}
use datagit.Engine.Commit.{row_or_nil, is_live, write_version, advance}
use datagit.Engine.Ancestry.{merge_base}
use datagit.Engine.Masks.{mask_since}

pub record MergeResult : Type 0 where
  pub base : Bytes
  pub result : Table
  pub conflicts : List Conflict
  pub clean : Bool
  pub commit : Bytes

-- `live && before.Equal(row)`
unfoldable pub is_unchanged : Option Row → Row → Bool
is_unchanged none row = false
is_unchanged (some before) row = Row.equal before row

-- The loop over the keys of the result.
unfoldable pub put_rows :
    List ColId → Bytes → ℕ → Bytes → Table → Table → List Pk → List Version → List Version
unfolding is_unchanged row_or_nil write_version
put_rows cols branch new_seq id current result [] rows = rows
put_rows cols branch new_seq id current result (pk ∷ pks) rows =
    let before = lookup pk current in
    let row = row_or_nil (lookup pk result) in
    put_rows cols branch new_seq id current result pks (
      if is_unchanged before row
      then rows
      else write_version
          (record {
            branch = branch;
            pk = pk;
            seq_from = new_seq;
            seq_to = max_seq;
            op = if is_live before then update else insert;
            commit = id;
            session = [];
            changed = mask_of (row_or_nil before) row cols;
            row = row;
          })
          rows)

-- The loop over the keys of the current state: those that the result does not have are deleted.
unfoldable pub delete_rows :
    List ColId → Bytes → ℕ → Bytes → Table → Table → List Pk → List Version → List Version
unfolding row_or_nil write_version
delete_rows cols branch new_seq id current result [] rows = rows
delete_rows cols branch new_seq id current result (pk ∷ pks) rows =
    delete_rows cols branch new_seq id current result pks (
      if is_live (lookup pk result)
      then rows
      else write_version
          (record {
            branch = branch;
            pk = pk;
            seq_from = new_seq;
            seq_to = max_seq;
            op = delete;
            commit = id;
            session = [];
            changed = mask_of (row_or_nil (lookup pk current)) none cols;
            row = none;
          })
          rows)

-- `applyMergeResult`, given the branch that it reads from the map.
unfoldable pub apply_merge_result : Bytes → Branch → Table → List Bytes → Engine → Engine × Bytes
unfolding put_rows delete_rows advance
apply_merge_result branch b result parents e =
    let current = resolve e branch in
    let new_seq = b.head_seq + 1 in
    let id = commit_name (e.next_id + 1) in
    let rows =
      delete_rows e.schema.cols branch new_seq id current result (table_keys current)
        (put_rows e.schema.cols branch new_seq id current result (table_keys result) e.rows) in
    (advance branch b new_seq id parents rows e, id)

-- `len(conflicts) == 0`
abbrev pub is_clean : List Conflict → Bool
is_clean [] = true
is_clean (k ∷ ks) = false

-- What `Merge` and `UpdateFromParent` return for the outcome of `mergeStates`.
unfoldable pub merge_result : Bytes → Table × List Conflict → Bytes → MergeResult
merge_result base (result, conflicts) id = record {
  base = base;
  result = result;
  conflicts = conflicts;
  clean = is_clean conflicts;
  commit = id;
}

-- The call of `mergeStates` over a base, for the heads of two branches.
unfoldable pub merge_heads : Engine → Bytes → Bytes → Bytes → Table × List Conflict
unfolding merge_states mask_since
merge_heads e into from base =
    merge_states e.schema.cols (state_at_commit e base) (resolve e into) (resolve e from)
      (mask_since e into base) (mask_since e from base)

-- `Merge` from the branch `fb` into the branch `tb`, at one merge base.
unfoldable pub merge_at :
    Engine → Bytes → Branch → Bytes → Branch → Bytes → Engine × Result MergeResult
unfolding merge_heads apply_merge_result merge_result
merge_at e from fb into tb base =
    let merged = merge_heads e into from base in
    if is_clean merged.1
    then (let applied =
          apply_merge_result into tb merged.0 (tb.head_commit ∷ fb.head_commit ∷ []) e in
        (applied.0, ok (merge_result base merged applied.1)))
    else (e, ok (merge_result base merged []))

-- `Merge`
unfoldable pub merge : Engine → Bytes → Bytes → Engine × Result MergeResult
unfolding merge_base merge_at
merge e from into = elim (lookup from e.branches) [
  | none ↦ (e, err no_branch)
  | some fb ↦ elim (lookup into e.branches) [
    | none ↦ (e, err no_branch)
    | some tb ↦ elim (merge_base e.commits tb.head_commit fb.head_commit) [
      | [] ↦ (e, err merge_bases)
      | (base ∷ bases) ↦ elim bases [
        | [] ↦ merge_at e from fb into tb base
        | (_ ∷ _) ↦ (e, err merge_bases)
      ]
    ]
  ]
]

-- Moves the fork point to the parent's head.
unfoldable pub advance_fork : Branch → Branch → Branch
unfolding inherited_chain_from
advance_fork b p = record b {
  fork_seq = p.head_seq;
  fork_commit = p.head_commit;
  chain = inherited_chain_from b.parent p;
}

-- `UpdateFromParent` where the parent has moved.
unfoldable pub absorb : Engine → Bytes → Branch → Branch → Engine × Result MergeResult
unfolding merge_heads apply_merge_result merge_result advance_fork
absorb e branch b p =
    let base = b.fork_commit in
    let merged = merge_heads e branch b.parent base in
    if is_clean merged.1
    then (let moved = advance_fork b p in
        let applied =
          apply_merge_result branch moved merged.0 (b.head_commit ∷ p.head_commit ∷ [])
            (record e { branches = put branch moved e.branches }) in
        (applied.0, ok (merge_result base merged applied.1)))
    else (e, ok (merge_result base merged []))

-- `UpdateFromParent`: a parent that is not in the map is a nil pointer.
unfoldable pub update_from_parent : Engine → Bytes → Engine × Result MergeResult
unfolding absorb
update_from_parent e branch = elim (lookup branch e.branches) [
  | none ↦ (e, err no_branch)
  | some b ↦
      if bytes_beq b.parent [] then (e, err no_parent) else elim (lookup b.parent e.branches) [
        | none ↦ (e, err nil_pointer)
        | some p ↦
            if bytes_beq p.head_commit b.fork_commit
            then (
              e,
              ok (record {
                base = b.fork_commit;
                result = resolve e branch;
                conflicts = [];
                clean = true;
                commit = [];
              }),
            )
            else absorb e branch b p
      ]
]
