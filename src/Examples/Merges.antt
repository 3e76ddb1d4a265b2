-- ===== src/Examples/Merges.antt =====
-- The theorems on merges at concrete inputs.
use datagit.Prelude.{◌≡◌, refl, some, [], ◌∷◌, bytes_eq, nat_eq, bytes_beq_iff, arith, eq_self}
use datagit.Maps.{lookup}
use datagit.Core.Row.{Row, mask_of}
use datagit.Core.Key.{Pk}
use datagit.Merge.Cells.{merge_states, merge_tables, mask_at}
use datagit.Merge.Columns.{SameMerge}
use datagit.Merge.Tables.{CoverChanges, merge_states-agree}
use datagit.Examples.{row_of, key}
use datagit.Merge.Columns.{mask_of-Covers}

only_key : (pk k : Pk) (r s : Row) → lookup pk ((k, r) ∷ []) ≡ some s → (k ≡ pk) × (r ≡ s)
unfolding lookup
only_key pk k r s h = ground (arith, bytes_beq_iff k pk)

-- The masks of one row's change.
one-CoverChanges :
    (b a : Row)
    → CoverChanges
        (1 ∷ 2 ∷ [])
        ((key, mask_of b a (1 ∷ 2 ∷ [])) ∷ [])
        ((key, b) ∷ [])
        ((key, a) ∷ [])
one-CoverChanges b a pk b' a' hb ha =
    let (same, is_b) = only_key pk key b b' hb in
    let is_a = (only_key pk key a a' ha).1 in
    let mask : mask_at ((key, mask_of b a (1 ∷ 2 ∷ [])) ∷ []) pk ≡ mask_of b a (1 ∷ 2 ∷ []) =
      (unfold mask_at lookup in rw (← same, mask_at) (rw (eq_self key) refl)) in
    rw (mask, ← is_b, ← is_a) (mask_of-Covers (1 ∷ 2 ∷ []) b a)

-- Each side changes one column.
merge_states-agree_example :
    SameMerge
      (merge_states
        (1 ∷ 2 ∷ [])
        ((key, row_of 1 1) ∷ [])
        ((key, row_of 5 1) ∷ [])
        ((key, row_of 1 6) ∷ [])
        ((key, mask_of (row_of 1 1) (row_of 5 1) (1 ∷ 2 ∷ [])) ∷ [])
        ((key, mask_of (row_of 1 1) (row_of 1 6) (1 ∷ 2 ∷ [])) ∷ []))
      (merge_tables
        (1 ∷ 2 ∷ [])
        ((key, row_of 1 1) ∷ [])
        ((key, row_of 5 1) ∷ [])
        ((key, row_of 1 6) ∷ []))
merge_states-agree_example =
    merge_states-agree (1 ∷ 2 ∷ []) ((key, row_of 1 1) ∷ []) ((key, row_of 5 1) ∷ [])
      ((key, row_of 1 6) ∷ []) ((key, mask_of (row_of 1 1) (row_of 5 1) (1 ∷ 2 ∷ [])) ∷ [])
      ((key, mask_of (row_of 1 1) (row_of 1 6) (1 ∷ 2 ∷ [])) ∷ [])
      (one-CoverChanges (row_of 1 1) (row_of 5 1)) (one-CoverChanges (row_of 1 1) (row_of 1 6))
