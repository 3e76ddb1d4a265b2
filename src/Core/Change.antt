-- ===== src/Core/Change.antt =====
-- internal/core/change.go: changes, conflicts and resolved tables.
pub mod Sorted
use datagit.Prelude.{
  ℕ, Bool, true, false, not, ◌&&◌, ◌||◌, Option, none, some, List, [], ◌∷◌, Bytes, bytes_beq,
  bytes_ltb, ltb, nat_beq, length, insertion_sort, if◌then◌else◌, bytes_eq,
}
use datagit.Maps.{Map, lookup}
use datagit.Maps.Collect.{keys, values}
use datagit.Core.Mask.{ColId, ColMask}
use datagit.Core.Value.{Value}
use datagit.Core.Row.{Row}
use datagit.Core.Row as Row
use datagit.Core.Key.{Pk}

pub data Op : Type 0 where
  insert update delete : Op

unfoldable pub is_delete : Op → Bool
is_delete delete = true
is_delete _ = false

pub record Change : Type 0 where
  pub pk : Pk
  pub op : Op
  pub row : Row
  pub changed : ColMask

abbrev pub ChangeSet : Type 0
ChangeSet = Map Pk Change

-- `Sorted`
unfoldable pub sorted : ChangeSet → List Change
sorted cs = insertion_sort (λ a b. bytes_ltb a.pk b.pk) (values cs)

pub data ConflictKind : Type 0 where
  cell add_add delete_modify constraint : ConflictKind

-- The numbers of `ConflictKind`.
pub kind_number : ConflictKind → ℕ
kind_number cell = 1
kind_number add_add = 2
kind_number delete_modify = 3
kind_number constraint = 4

pub record Conflict : Type 0 where
  pub pk : Pk
  pub kind : ConflictKind
  pub col : ColId
  pub has_col : Bool
  pub base : Value
  pub ours : Value
  pub theirs : Value

conflict_ltb : Conflict → Conflict → Bool
unfolding kind_number
conflict_ltb a b =
    if not (bytes_beq a.pk b.pk)
    then bytes_ltb a.pk b.pk
    else if not (nat_beq (kind_number a.kind) (kind_number b.kind))
    then ltb (kind_number a.kind) (kind_number b.kind)
    else ltb a.col b.col

-- `SortConflicts`
unfoldable pub sort_conflicts : List Conflict → List Conflict
unfolding conflict_ltb
sort_conflicts = insertion_sort conflict_ltb

abbrev pub Table : Type 0
Table = Map Pk Row

-- `Table.Keys`
unfoldable pub table_keys : Table → List Pk
table_keys t = insertion_sort bytes_ltb (keys t)

-- The loop of `Table.Equal`.
rows_equal : Table → Table → Bool
rows_equal [] o = true
rows_equal ((k, r) ∷ t) o =
    elim (lookup k o) [ none ↦ false | some s ↦ Row.equal r s ] && rows_equal t o

-- `Table.Equal`
unfoldable pub table_equal : Table → Table → Bool
unfolding rows_equal
table_equal t o = if not (nat_beq (length t) (length o)) then false else rows_equal t o

pub record Schema : Type 0 where
  pub cols : List ColId
  pub pk_cols : List ColId
