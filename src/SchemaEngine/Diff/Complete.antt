-- ===== src/SchemaEngine/Diff/Complete.antt =====
-- `Diff` of internal/schemaeng/schema.go against the columns of the two versions.
use datagit.Prelude.{
  ◌≡◌, ◌∙◌, refl, inl, inr, Bool, false, not, ◌&&◌, ◌||◌, Option, none, some, List, [], ◌∷◌, ◌++◌,
  nat_beq, nat_beq_iff, nat_eq, insert, insertion_sort, map, contains, or_else, or_else-none,
  Bool-cases, Option-cases, arith,
}
use datagit.Maps.{Map, lookup, put, lookup-put}
use datagit.Core.Mask.{ColId}
use datagit.SchemaEngine.{Column, Version, find_column, column, same_column, agrees}
use datagit.SchemaEngine.Diff.{
  Change, have_from, alter, add, changed_columns, dropped_columns, change_ltb, diff,
}

abbrev pub ids : List Column → List ColId
ids cs = map (λ c. c.id) cs

-- No id stands twice.
abbrev pub HasDistinctIds : List Column → Type 0
HasDistinctIds [] = Unit
HasDistinctIds (c ∷ cs) = (contains c.id (ids cs) ≡ false) × HasDistinctIds cs

-- There is a change of the column.
unfoldable pub has_change : ColId → List Change → Bool
has_change j [] = false
has_change j (c ∷ cs) = nat_beq c.col j || has_change j cs

has_change-append :
    (j : ColId) (xs ys : List Change)
    → has_change j (xs ++ ys) ≡ (has_change j xs || has_change j ys)
unfolding has_change
has_change-append j [] ys = refl
has_change-append j (x ∷ xs) ys = ground (arith, has_change-append j xs ys)

has_change-insert :
    (j : ColId) (less : Change → Change → Bool) (x : Change) (xs : List Change)
    → has_change j (insert less x xs) ≡ (nat_beq x.col j || has_change j xs)
unfolding has_change insert
has_change-insert j less x [] = refl
has_change-insert j less x (y ∷ ys) = ground (arith, has_change-insert j less x ys)

has_change-insertion_sort :
    (j : ColId) (less : Change → Change → Bool) (xs : List Change)
    → has_change j (insertion_sort less xs) ≡ has_change j xs
unfolding has_change insertion_sort
has_change-insertion_sort j less [] = refl
has_change-insertion_sort j less (x ∷ xs) = ground (
  arith,
  has_change-insert j less x (insertion_sort less xs),
  has_change-insertion_sort j less xs,
)

has_change-alter :
    (j : ColId) (old c : Column)
    → has_change j (alter old c) ≡ (nat_beq c.id j && not (same_column old c))
unfolding has_change alter same_column
has_change-alter j old c = ground arith

absent_find : (j : ColId) (cs : List Column) → contains j (ids cs) ≡ false → find_column j cs ≡ none
unfolding contains find_column
absent_find j [] h = refl
absent_find j (c ∷ cs) h = ground (arith, absent_find j cs)

lookup-have_from :
    (j : ColId) (cs : List Column) (m : Map ColId Column)
    → HasDistinctIds cs
    → lookup j (have_from cs m) ≡ or_else (find_column j cs) (lookup j m)
unfolding have_from find_column
lookup-have_from j [] m h = refl
lookup-have_from j (c ∷ cs) m h =
    lookup-have_from j cs (put c.id c m) h.1 ∙ elim (Bool-cases (nat_beq c.id j)) [
      | inl here ↦
          let e = (nat_beq_iff c.id j).0 here in
          rw (lookup-put j c.id c m, here, absent_find j cs (rw (← e) h.0)) refl
      | inr other ↦ rw (lookup-put j c.id c m, other) refl
    ]

have_found :
    (j : ColId) (cs : List Column)
    → HasDistinctIds cs
    → lookup j (have_from cs []) ≡ find_column j cs
unfolding lookup
have_found j cs h = lookup-have_from j cs [] h ∙ or_else-none (find_column j cs)

-- What `Diff` reports of a column, `old` being the one that it has on the other side.
abbrev moved : Option Column → Option Column → Bool
moved old none = false
moved old (some c) = not (agrees old (some c))

of_column : Map ColId Column → Column → List Change
of_column have c = elim (lookup c.id have) as (λ o. List Change) [
  | none ↦ add c ∷ []
  | some old ↦ alter old c
]

has_change-of_column :
    (j : ColId) (have : Map ColId Column) (c : Column)
    → has_change j (of_column have c) ≡ (nat_beq c.id j && moved (lookup c.id have) (some c))
unfolding of_column has_change add
has_change-of_column j have c = elim (Option-cases (lookup c.id have)) [
  | inl new ↦ rw (new, of_column) (ground arith)
  | inr (old, there) ↦ rw (there, of_column) (has_change-alter j old c)
]

has_change-changed_columns :
    (j : ColId) (have : Map ColId Column) (cs : List Column)
    → HasDistinctIds cs
    → has_change j (changed_columns have cs) ≡ moved (lookup j have) (find_column j cs)
unfolding changed_columns of_column has_change find_column
has_change-changed_columns j have [] h = refl
has_change-changed_columns j have (c ∷ cs) h =
    has_change-append j (of_column have c) (changed_columns have cs)
    ∙ elim (Bool-cases (nat_beq c.id j)) [
      | inl here ↦
          let e = (nat_beq_iff c.id j).0 here in
          rw (has_change-of_column j have c, has_change-changed_columns j have cs h.1, here)
            (rw (absent_find j cs (rw (← e) h.0), e) (ground arith))
      | inr other ↦
          rw (has_change-of_column j have c, has_change-changed_columns j have cs h.1, other) refl
    ]

has_change-dropped_columns :
    (j : ColId) (seen : List ColId) (cs : List Column)
    → has_change j (dropped_columns seen cs) ≡ (contains j (ids cs) && not (contains j seen))
unfolding dropped_columns has_change contains
has_change-dropped_columns j seen [] = refl
has_change-dropped_columns j seen (c ∷ cs) =
    ground (arith, has_change-dropped_columns j seen cs, nat_beq_iff c.id j)

is_found :
    (j : ColId) (cs : List Column) → contains j (ids cs) ≡ not (agrees (find_column j cs) none)
unfolding contains find_column
is_found j [] = refl
is_found j (c ∷ cs) = ground (arith, is_found j cs)

either_moved :
    (old new : Option Column)
    → (moved old new || (not (agrees old none) && not (not (agrees new none))))
      ≡ not (agrees old new)
either_moved none none = refl
either_moved none (some c) = refl
either_moved (some o) none = refl
either_moved (some o) (some c) = ground arith

-- `Diff` of two versions in which no id stands twice reports a change of a column exactly where one
-- side has it and the other has not, or where they differ in its name, type or nullability.
pub has_change-diff :
    (from to : Version) (j : ColId)
    → HasDistinctIds from.columns
    → HasDistinctIds to.columns
    → has_change j (diff from to) ≡ not (agrees (column from j) (column to j))
unfolding diff column
has_change-diff from to j hf ht =
    let have = have_from from.columns [] in
    let changed = changed_columns have to.columns in
    let dropped = dropped_columns (ids to.columns) from.columns in
    has_change-insertion_sort j change_ltb (changed ++ dropped)
    ∙ has_change-append j changed dropped
    ∙ rw
        (
          has_change-changed_columns j have to.columns ht,
          has_change-dropped_columns j (ids to.columns) from.columns,
          have_found j from.columns hf,
          is_found j from.columns,
          is_found j to.columns,
        )
        (either_moved (find_column j from.columns) (find_column j to.columns))
