-- ===== src/Engine/Passes.antt =====
-- Properties of single versions, through every pass of internal/engine/engine.go over the rows.
pub mod Kept
pub mod Calls
pub mod Widths
pub mod Root
use datagit.Prelude.{
  ℕ, ◌+◌, ◌≡◌, ◌∙◌, refl, sym, subst, false, true, Option, none, some, List, [], ◌∷◌, ◌++◌, Bytes,
  bytes_beq, bytes_eq, arith, if◌then◌else◌, Bool-cases, Option-cases, inl, inr,
}
use mathlib.Core.Option.{some-injective}
use datagit.Maps.{lookup}
use datagit.Maps.Collect.{bind-eq-some}
use datagit.Core.Mask.{ColId}
use datagit.Core.Mask as Mask
use datagit.Core.Row.{Row, mask_of}
use datagit.Core.Key.{Pk}
use datagit.Core.Change.{Change, Table, is_delete}
use datagit.Engine.State.{Version, Branch, max_seq, commit_name, root_branch}
use datagit.Engine.Commit.{is_open_at, is_live, row_or_nil, close_open, write_version, next_version}
use datagit.Engine.Commit.Effect.{planned}
use datagit.Engine.Publish.{write_all}
use datagit.Engine.Merging.{is_unchanged, put_rows, delete_rows}
use datagit.Engine.Sessions.{
  is_staged, upsert, staged_version, stage, stage_changes, close_all, stamp, drop_staged, view_row,
  next_seq,
}
use datagit.Engine.Sessions.Isolation.{stage-rows}

-- What an operation knows of a version that it makes.
pub record IsNew (cols : List ColId) (branch commit session : Bytes) (v : Version) : Type 0 where
  pub branch_is : v.branch ≡ branch
  pub commit_is : v.commit ≡ commit
  pub session_is : v.session ≡ session
  pub mask_is : (before : Row) × (after : Row) × (v.changed ≡ mask_of before after cols)

-- A property that each operation gives the versions that it makes, and keeps for those that it
-- changes in place. A session has an id and is not on the root branch.
pub record IsRowInvariant (cols : List ColId) (P : Version → Type 0) : Type 0 where
  pub fresh : (branch : Bytes) (k : ℕ) (v : Version) → IsNew cols branch (commit_name k) [] v → P v
  pub staged :
      (branch sid : Bytes) (v : Version)
      → bytes_beq sid [] ≡ false
      → bytes_beq branch root_branch ≡ false
      → IsNew cols branch [] sid v
      → P v
  pub closes : (v : Version) (at : ℕ) → P v → P (record v { seq_to = at })
  pub widens :
      (v new : Version)
      → P v
      → P new
      → P (record v { op = new.op; row = new.row; changed = Mask.union v.changed new.changed })
  pub stamps :
      (v : Version) (k at : ℕ)
      → P v
      → P (record v { session = []; commit = commit_name k; seq_from = at; seq_to = max_seq })

abbrev pub AllRows : (Version → Type 0) → List Version → Type 0
AllRows P [] = Unit
AllRows P (v ∷ rows) = P v × AllRows P rows

-- The row that a change leaves, nil for a deletion.
abbrev row_after : Change → Row
row_after ch = if is_delete ch.op then none else ch.row

module _ (cols : List ColId) (P : Version → Type 0) (inv : IsRowInvariant cols P) where
  AllRows-append :
      (rows : List Version) (v : Version) → AllRows P rows → P v → AllRows P (rows ++ v ∷ [])
  AllRows-append [] v h k = (k, tt)
  AllRows-append (w ∷ rows) v h k = (h.0, AllRows-append rows v h.1 k)

  close_open-AllRows :
      (branch : Bytes) (pk : Pk) (at : ℕ) (rows : List Version)
      → AllRows P rows
      → AllRows P (close_open branch pk at rows)
  unfolding close_open
  close_open-AllRows branch pk at [] h = tt
  close_open-AllRows branch pk at (v ∷ rows) h = elim (Bool-cases (is_open_at branch pk v)) [
    | inl here ↦ rw (here, close_open) (inv.closes v at h.0, h.1)
    | inr there ↦ rw (there, close_open) (h.0, close_open-AllRows branch pk at rows h.1)
  ]

  write_version-AllRows :
      (v : Version) (rows : List Version) → AllRows P rows → P v → AllRows P (write_version v rows)
  unfolding write_version
  write_version-AllRows v rows h k =
      AllRows-append (close_open v.branch v.pk v.seq_from rows) v
        (close_open-AllRows v.branch v.pk v.seq_from rows h) k

  pub write_all-AllRows :
      (vs rows : List Version) → AllRows P vs → AllRows P rows → AllRows P (write_all vs rows)
  unfolding write_all
  write_all-AllRows [] rows h k = k
  write_all-AllRows (v ∷ vs) rows h k =
      write_all-AllRows vs (write_version v rows) h.1 (write_version-AllRows v rows k h.0)

  upsert-AllRows :
      (new : Version) (rows : List Version) → P new → AllRows P rows → AllRows P (upsert new rows)
  unfolding upsert
  upsert-AllRows new [] h k = (h, tt)
  upsert-AllRows new (v ∷ rows) h k = elim (Bool-cases (is_staged new.session new.pk v)) [
    | inl here ↦ rw (here, upsert) (inv.widens v new k.0 h, k.1)
    | inr there ↦ rw (there, upsert) (k.0, upsert-AllRows new rows h k.1)
  ]

  next_version-IsNew :
      (branch : Bytes) (at : ℕ) (id : Bytes) (before : Option Row) (ch : Change) (v : Version)
      → next_version cols branch at id before ch ≡ some v
      → IsNew cols branch id [] v
  unfolding next_version
  next_version-IsNew branch at id before ch v h = record {
    branch_is = ground arith;
    commit_is = ground arith;
    session_is = ground arith;
    mask_is = (row_or_nil before, row_after ch, ground arith);
  }

  pub planned-AllRows :
      (branch : Bytes) (at k : ℕ) (current : Table) (chs : List Change)
      → AllRows P (planned cols branch at (commit_name k) current chs)
  unfolding planned
  planned-AllRows branch at k current [] = tt
  planned-AllRows branch at k current (ch ∷ chs) =
      elim (Option-cases (next_version cols branch at (commit_name k) (lookup ch.pk current) ch)) [
        | inl skip ↦ rw (skip, planned) (planned-AllRows branch at k current chs)
        | inr (v, new) ↦
            rw (new, planned)
              (
                inv.fresh branch k v
                    (next_version-IsNew branch at (commit_name k) (lookup ch.pk current) ch v new),
                planned-AllRows branch at k current chs,
              )
      ]

  pub put_rows-AllRows :
      (branch : Bytes) (at k : ℕ) (current result : Table) (pks : List Pk) (rows : List Version)
      → AllRows P rows
      → AllRows P (put_rows cols branch at (commit_name k) current result pks rows)
  unfolding put_rows
  put_rows-AllRows branch at k current result [] rows h = h
  put_rows-AllRows branch at k current result (pk ∷ pks) rows h =
      elim (Bool-cases (is_unchanged (lookup pk current) (row_or_nil (lookup pk result)))) [
        | inl same ↦ rw (same, put_rows) (put_rows-AllRows branch at k current result pks rows h)
        | inr apart ↦
            rw (apart, put_rows)
              (put_rows-AllRows branch at k current result pks _ (
                write_version-AllRows _ rows h (
                  inv.fresh branch k _ (record {
                    branch_is = refl;
                    commit_is = refl;
                    session_is = refl;
                    mask_is = (row_or_nil (lookup pk current), row_or_nil (lookup pk result), refl);
                  }))))
      ]

  pub delete_rows-AllRows :
      (branch : Bytes) (at k : ℕ) (current result : Table) (pks : List Pk) (rows : List Version)
      → AllRows P rows
      → AllRows P (delete_rows cols branch at (commit_name k) current result pks rows)
  unfolding delete_rows
  delete_rows-AllRows branch at k current result [] rows h = h
  delete_rows-AllRows branch at k current result (pk ∷ pks) rows h =
      elim (Bool-cases (is_live (lookup pk result))) [
        | inl kept ↦
            rw (kept, delete_rows) (delete_rows-AllRows branch at k current result pks rows h)
        | inr gone ↦
            rw (gone, delete_rows)
              (delete_rows-AllRows branch at k current result pks _ (
                write_version-AllRows _ rows h (
                  inv.fresh branch k _ (record {
                    branch_is = refl;
                    commit_is = refl;
                    session_is = refl;
                    mask_is = (row_or_nil (lookup pk current), none, refl);
                  }))))
      ]

  staged_version-IsNew :
      (sid branch : Bytes) (seq : ℕ) (before : Option Row) (ch : Change) (v : Version)
      → staged_version cols sid branch seq before ch ≡ some v
      → IsNew cols branch [] sid v
  unfolding staged_version
  staged_version-IsNew sid branch seq before ch v h = record {
    branch_is = ground arith;
    commit_is = ground arith;
    session_is = ground arith;
    mask_is = (row_or_nil before, row_after ch, ground arith);
  }

  stage-AllRows :
      (b : Option Branch) (o : Option Version) (acc out : List Version × Option Table)
      → ((v : Version) → o ≡ some v → P v)
      → stage b o acc ≡ some out
      → AllRows P acc.0
      → AllRows P out.0
  unfolding stage
  stage-AllRows b none acc out new done h =
      subst (λ a. AllRows P a.0) (some-injective acc out done) h
  stage-AllRows b (some v) acc out new done h =
      subst (AllRows P) (sym (stage-rows b v acc out done)) (upsert-AllRows v acc.0 (new v refl) h)

  pub stage_changes-AllRows :
      (sid branch : Bytes) (b : Option Branch) (chs : List Change)
      (acc out : List Version × Option Table)
      → bytes_beq sid [] ≡ false
      → bytes_beq branch root_branch ≡ false
      → stage_changes cols sid branch b chs acc ≡ some out
      → AllRows P acc.0
      → AllRows P out.0
  unfolding stage_changes
  stage_changes-AllRows sid branch b [] acc out named off done h =
      subst (λ a. AllRows P a.0) (some-injective acc out done) h
  stage_changes-AllRows sid branch b (ch ∷ chs) acc out named off done h =
      let before = view_row acc.1 ch.pk in
      let made = staged_version cols sid branch (next_seq b) before ch in
      let (mid, first_round, more) =
        bind-eq-some (stage b made acc) (stage_changes cols sid branch b chs) done in
      stage_changes-AllRows sid branch b chs mid out named off more (
        stage-AllRows b made acc mid
          (λ v new.
            inv.staged branch sid v named off
              (staged_version-IsNew sid branch (next_seq b) before ch v new))
          first_round h)

  pub close_all-AllRows :
      (branch : Bytes) (at : ℕ) (pks : List Pk) (rows : List Version)
      → AllRows P rows
      → AllRows P (close_all branch at pks rows)
  unfolding close_all
  close_all-AllRows branch at [] rows h = h
  close_all-AllRows branch at (pk ∷ pks) rows h =
      close_all-AllRows branch at pks (close_open branch pk at rows)
        (close_open-AllRows branch pk at rows h)

  pub stamp-AllRows :
      (sid : Bytes) (k at : ℕ) (rows : List Version)
      → AllRows P rows
      → AllRows P (stamp sid (commit_name k) at rows)
  unfolding stamp
  stamp-AllRows sid k at [] h = tt
  stamp-AllRows sid k at (v ∷ rows) h = elim (Bool-cases (bytes_beq v.session sid)) [
    | inl staged ↦ rw (staged, stamp) (inv.stamps v k at h.0, stamp-AllRows sid k at rows h.1)
    | inr other ↦ rw (other, stamp) (h.0, stamp-AllRows sid k at rows h.1)
  ]

  pub drop_staged-AllRows :
      (sid : Bytes) (rows : List Version) → AllRows P rows → AllRows P (drop_staged sid rows)
  unfolding drop_staged
  drop_staged-AllRows sid [] h = tt
  drop_staged-AllRows sid (v ∷ rows) h = elim (Bool-cases (bytes_beq v.session sid)) [
    | inl staged ↦ rw (staged, drop_staged) (drop_staged-AllRows sid rows h.1)
    | inr other ↦ rw (other, drop_staged) (h.0, drop_staged-AllRows sid rows h.1)
  ]
