-- ===== src/Engine/Merging/Applied.antt =====
-- What `applyMergeResult` of internal/engine/engine.go writes, as a plan over the keys of the merged
-- table and of the current one.
use datagit.Prelude.{
  ℕ, ◌≡◌, ◌∙◌, refl, ap, sym, true, not, ◌&&◌, Option, none, some, List, [], ◌∷◌, ◌++◌, Bytes,
  bytes_beq, bytes_beq_iff, bytes_eq, if◌then◌else◌, arith, Bool-cases, inl, inr, Option-cases,
  contains, contains-append, or_else,
}
use datagit.Maps.{lookup, IsMap}
use datagit.Core.Mask.{ColId}
use datagit.Core.Row.{Row, mask_of}
use datagit.Core.Row as Row
use datagit.Core.Key.{Pk}
use datagit.Core.Change.{Op, insert, update, delete, is_delete, Table, table_keys}
use datagit.Engine.State.{Version, max_seq}
use datagit.Engine.Commit.{row_or_nil, is_live}
use datagit.Engine.Commit.Effect.{show}
use datagit.Engine.History.Timeline.{face}
use datagit.Engine.Publish.{write_all, written, IsPlan}
use datagit.Engine.Merging.{is_unchanged, put_rows, delete_rows}
use datagit.Engine.Merging.Plan.{
  Plans, plan_of, IsDistinct, plan_of-append, write_all-append, written-plan_of, plan_of-IsPlan,
  append-IsDistinct, contains-table_keys, table_keys-IsDistinct,
}

-- What the branch holds of a key after the merge: the merged row, but the row that was there where the
-- two are `Equal`.
abbrev pub merged_row : Option Row → Option Row → Option Row
merged_row before none = none
merged_row none (some row) = some row
merged_row (some old) (some row) = if Row.equal old row then some old else some row

module _ (cols : List ColId) (branch : Bytes) (at : ℕ) (id : Bytes) (current result : Table) where
  abbrev put_version : Pk → Row → Version
  put_version pk row = record {
    branch = branch;
    pk = pk;
    seq_from = at;
    seq_to = max_seq;
    op = if is_live (lookup pk current) then update else insert;
    commit = id;
    session = [];
    changed = mask_of (row_or_nil (lookup pk current)) row cols;
    row = row;
  }

  abbrev delete_version : Pk → Version
  delete_version pk = record {
    branch = branch;
    pk = pk;
    seq_from = at;
    seq_to = max_seq;
    op = delete;
    commit = id;
    session = [];
    changed = mask_of (row_or_nil (lookup pk current)) none cols;
    row = none;
  }

  pub version_for : Pk → Option Version
  version_for pk =
      if is_live (lookup pk result)
      then if is_unchanged (lookup pk current) (row_or_nil (lookup pk result))
        then none
        else some (put_version pk (row_or_nil (lookup pk result)))
      else if is_live (lookup pk current)
      then some (delete_version pk)
      else none

  -- The keys that the merged table does not have.
  pub outside : List Pk → List Pk
  outside [] = []
  outside (pk ∷ pks) =
      let rest = outside pks in if is_live (lookup pk result) then rest else pk ∷ rest

  put_rows-plan_of :
      (pks : List Pk) (rows : List Version)
      → ((j : Pk) → contains j pks ≡ true → is_live (lookup j result) ≡ true)
      → put_rows cols branch at id current result pks rows
        ≡ write_all (plan_of version_for pks) rows
  unfolding put_rows plan_of write_all version_for contains
  put_rows-plan_of [] rows h = refl
  put_rows-plan_of (pk ∷ pks) rows h =
      let held : is_live (lookup pk result) ≡ true = h pk (ground (arith, bytes_beq_iff pk pk)) in
      let rest = λ (r : List Version). put_rows-plan_of pks r (λ j k. h j (ground arith)) in
      elim (Bool-cases (is_unchanged (lookup pk current) (row_or_nil (lookup pk result)))) [
        | inl same ↦ rw (same, put_rows, held, plan_of) (rest rows)
        | inr other ↦ rw (other, put_rows, held, plan_of) (rest _)
      ]

  delete_rows-plan_of :
      (pks : List Pk) (rows : List Version)
      → ((j : Pk) → contains j pks ≡ true → is_live (lookup j current) ≡ true)
      → delete_rows cols branch at id current result pks rows
        ≡ write_all (plan_of version_for (outside pks)) rows
  unfolding delete_rows plan_of write_all version_for outside contains
  delete_rows-plan_of [] rows h = refl
  delete_rows-plan_of (pk ∷ pks) rows h =
      let held : is_live (lookup pk current) ≡ true = h pk (ground (arith, bytes_beq_iff pk pk)) in
      let rest = λ (r : List Version). delete_rows-plan_of pks r (λ j k. h j (ground arith)) in
      elim (Bool-cases (is_live (lookup pk result))) [
        | inl still ↦ rw (still, delete_rows, outside) (rest rows)
        | inr gone ↦ rw (gone, delete_rows, outside, plan_of) (rw (gone, held) (rest _))
      ]

  contains-outside :
      (pks : List Pk) (j : Pk)
      → contains j (outside pks) ≡ (contains j pks && not (is_live (lookup j result)))
  unfolding outside contains
  contains-outside [] j = refl
  contains-outside (pk ∷ pks) j = elim (Bool-cases (bytes_beq pk j)) [
    | inl here ↦
        let same : pk ≡ j = (bytes_beq_iff pk j).0 here in
        rw (← same) (ground (arith, contains-outside pks pk, bytes_beq_iff pk pk))
    | inr there ↦ ground (arith, contains-outside pks j)
  ]

  outside-IsDistinct : (pks : List Pk) → IsDistinct pks → IsDistinct (outside pks)
  unfolding outside
  outside-IsDistinct [] d = tt
  outside-IsDistinct (pk ∷ pks) d = elim (Bool-cases (is_live (lookup pk result))) [
    | inl still ↦ rw (still, outside) (outside-IsDistinct pks d.1)
    | inr gone ↦
        rw (gone, outside)
          (contains-outside pks pk ∙ ground (arith, d.0), outside-IsDistinct pks d.1)
  ]

  -- The keys in the order in which they are written.
  abbrev pub written_keys : List Pk
  written_keys = table_keys result ++ outside (table_keys current)

  -- The loops write the plan.
  pub loops-plan_of :
      (rows : List Version)
      → delete_rows cols branch at id current result
          (table_keys current)
          (put_rows cols branch at id current result (table_keys result) rows)
        ≡ write_all (plan_of version_for written_keys) rows
  loops-plan_of rows =
      delete_rows-plan_of (table_keys current) _ (λ j h. sym (contains-table_keys current j) ∙ h)
      ∙ ap (write_all (plan_of version_for (outside (table_keys current)))) (
          put_rows-plan_of (table_keys result) rows (λ j h. sym (contains-table_keys result j) ∙ h))
      ∙ sym (
          write_all-append (plan_of version_for (table_keys result))
            (plan_of version_for (outside (table_keys current))) rows)
      ∙ ap (λ (vs : List Version). write_all vs rows)
          (sym (plan_of-append version_for (table_keys result) (outside (table_keys current))))

  version_for-Plans : Plans branch at version_for
  unfolding version_for
  version_for-Plans pk v h = ground arith

  pub plan-IsPlan :
      IsMap current → IsMap result → IsPlan branch at (plan_of version_for written_keys)
  plan-IsPlan hc hr = plan_of-IsPlan branch at version_for version_for-Plans written_keys (
      append-IsDistinct (table_keys result) (outside (table_keys current))
        (table_keys-IsDistinct result hr)
        (outside-IsDistinct (table_keys current) (table_keys-IsDistinct current hc))
        (λ j h.
          ground (arith, contains-table_keys result j, contains-outside (table_keys current) j)))

  pub written-plan : (j : Pk) → written j (plan_of version_for written_keys) ≡ version_for j
  unfolding version_for
  written-plan j =
      written-plan_of branch at version_for version_for-Plans written_keys j
      ∙ ground (
        arith,
        contains-append j (table_keys result) (outside (table_keys current)),
        contains-table_keys result j,
        contains-table_keys current j,
        contains-outside (table_keys current) j,
      )

  -- With what is written the key shows the merged row.
  pub show-version_for :
      (j : Pk) (old : Option (Op × Row))
      → show old ≡ lookup j current
      → show (or_else (face (version_for j)) old) ≡ merged_row (lookup j current) (lookup j result)
  unfolding version_for is_unchanged row_or_nil is_delete
  show-version_for j old h = elim (Option-cases (lookup j result)) [
    | inl gone ↦ elim (Option-cases (lookup j current)) [
      | inl absent ↦ rw (gone, absent) (h ∙ absent)
      | inr (before, held) ↦ rw (gone, held) refl
    ]
    | inr (row, merged) ↦ elim (Option-cases (lookup j current)) [
      | inl absent ↦ rw (merged, absent) refl
      | inr (before, held) ↦ elim (Bool-cases (Row.equal before row)) [
        | inl same ↦ rw (merged, held, same) (h ∙ held)
        | inr other ↦ rw (merged, held, other) refl
      ]
    ]
  ]
