-- ===== src/SchemaEngine/Merge/Correct.antt =====
-- `Merge` of internal/schemaeng/schema.go, column by column.
use mathlib.Core.List.{map-append}
use datagit.Prelude.{
  ◌≡◌, ◌∙◌, refl, sym, ap, inl, inr, Bool, true, false, ◌&&◌, ◌||◌, Option, none, some, List, [],
  ◌∷◌, nat_beq, nat_beq_iff, nat_eq, map, contains, contains-append, contains-dedup,
  contains-insertion_sort, or_else, or_else-none, Bool-cases, if◌then◌else◌, arith,
}
use datagit.Maps.{lookup}
use datagit.Core.Mask.{ColId}
use datagit.SchemaEngine.{Column, Version, find_column, column}
use datagit.SchemaEngine.Merge.{
  MergeOutcome, Verdict, nothing, merge_column, record_verdict, merge_loop, all_ids, start, merge,
}
use datagit.SchemaEngine.Merge.ThreeWay.{
  three_way, IsAbout, outcome, merge_column-three_way, find_column-IsNamed, merge_column-IsAbout,
  kept, clashes, goes, merged, is_conflict, is_removal, is_some, kept-outcome, clashes-outcome,
  goes-outcome, has_conflict, column-record_verdict, conflict-record_verdict,
  dropped-record_verdict,
}

or_else-once : (o p : Option Column) → or_else (or_else o p) p ≡ or_else o p
or_else-once none none = refl
or_else-once none (some p) = refl
or_else-once (some o) p = refl

find_column_absent :
    (j : ColId) (cs : List Column)
    → contains j (map (λ c. c.id) cs) ≡ false
    → find_column j cs ≡ none
unfolding contains find_column
find_column_absent j [] h = refl
find_column_absent j (c ∷ cs) h = ground (arith, find_column_absent j cs)

contains-all_ids :
    (base ours theirs : Version) (j : ColId)
    → contains j (all_ids base ours theirs) ≡ (
        contains j (map (λ c. c.id) base.columns)
        || (contains j (map (λ c. c.id) ours.columns)
            || contains j (map (λ c. c.id) theirs.columns)))
unfolding all_ids
contains-all_ids base ours theirs j =
    simp (contains-insertion_sort, contains-dedup, map-append, contains-append)

module _ (base ours theirs : Version) where
  -- What the loop decides of a column.
  verdict : ColId → Verdict
  verdict id = merge_column id (column base id) (column ours id) (column theirs id)

  verdict-IsAbout : (id : ColId) → IsAbout id (verdict id)
  unfolding verdict column
  verdict-IsAbout id =
      merge_column-IsAbout id (find_column id base.columns) (find_column id ours.columns)
        (find_column id theirs.columns) (find_column-IsNamed id ours.columns)
        (find_column-IsNamed id theirs.columns)

  verdict_at : (id j : ColId) → nat_beq id j ≡ true → verdict id ≡ verdict j
  verdict_at id j h = ap verdict ((nat_beq_iff id j).0 h)

  column-merge_loop :
      (j : ColId) (ids : List ColId) (out : MergeOutcome)
      → column (merge_loop base ours theirs ids out).result j
        ≡ or_else (column out.result j) (if contains j ids then kept (verdict j) else none)
  unfolding merge_loop contains verdict
  column-merge_loop j [] out = sym (or_else-none (column out.result j))
  column-merge_loop j (id ∷ ids) out =
      column-merge_loop j ids (record_verdict id (verdict id) out)
      ∙ ground (
        arith,
        column-record_verdict j id (verdict id) out (verdict-IsAbout id),
        verdict_at id j,
        or_else-once (column out.result j) (kept (verdict j)),
        or_else-none (column out.result j),
        or_else-none (or_else (column out.result j) (kept (verdict j))),
      )

  conflict-merge_loop :
      (j : ColId) (ids : List ColId) (out : MergeOutcome)
      → has_conflict j (merge_loop base ours theirs ids out).conflicts
        ≡ (has_conflict j out.conflicts || (contains j ids && clashes (verdict j)))
  unfolding merge_loop contains verdict
  conflict-merge_loop j [] out = ground arith
  conflict-merge_loop j (id ∷ ids) out =
      conflict-merge_loop j ids (record_verdict id (verdict id) out)
      ∙ ground (
        arith,
        conflict-record_verdict j id (verdict id) out (verdict-IsAbout id),
        verdict_at id j,
      )

  dropped-merge_loop :
      (j : ColId) (ids : List ColId) (out : MergeOutcome)
      → lookup j (merge_loop base ours theirs ids out).result.dropped
        ≡ (if contains j ids && goes (verdict j) then some 0 else lookup j out.result.dropped)
  unfolding merge_loop contains verdict
  dropped-merge_loop j [] out = ground arith
  dropped-merge_loop j (id ∷ ids) out =
      dropped-merge_loop j ids (record_verdict id (verdict id) out)
      ∙ ground (arith, dropped-record_verdict j id (verdict id) out, verdict_at id j)

  verdict_absent : (j : ColId) → contains j (all_ids base ours theirs) ≡ false → verdict j ≡ nothing
  unfolding verdict column merge_column
  verdict_absent j h =
      let parts = contains-all_ids base ours theirs j in
      rw
        (
          find_column_absent j base.columns (ground arith),
          find_column_absent j ours.columns (ground arith),
          find_column_absent j theirs.columns (ground arith),
        )
        refl

  goes-verdict :
      (j : ColId) → goes (verdict j) ≡ (is_removal (outcome (verdict j)) && is_some (column base j))
  unfolding verdict
  goes-verdict j = goes-outcome j (column base j) (column ours j) (column theirs j)

  outcome-verdict :
      (j : ColId)
      → outcome (verdict j) ≡ three_way (column base j) (column ours j) (column theirs j)
  unfolding verdict
  outcome-verdict j = merge_column-three_way j (column base j) (column ours j) (column theirs j)

  -- An id that no version has makes no difference.
  among_ids :
      (j : ColId)
      → ((if contains j (all_ids base ours theirs) then kept (verdict j) else none)
          ≡ kept (verdict j))
        × ((contains j (all_ids base ours theirs) && clashes (verdict j)) ≡ clashes (verdict j))
        × ((contains j (all_ids base ours theirs) && goes (verdict j)) ≡ goes (verdict j))
  among_ids j = elim (Bool-cases (contains j (all_ids base ours theirs))) [
    | inl there ↦ rw there (refl, refl, refl)
    | inr absent ↦ rw (absent, verdict_absent j absent) (refl, refl, refl)
  ]

  column-merge : (j : ColId) → column (merge base ours theirs).result j ≡ kept (verdict j)
  unfolding merge column find_column
  column-merge j = column-merge_loop j (all_ids base ours theirs) (start base) ∙ (among_ids j).0

  conflict-merge :
      (j : ColId) → has_conflict j (merge base ours theirs).conflicts ≡ clashes (verdict j)
  unfolding merge has_conflict
  conflict-merge j = conflict-merge_loop j (all_ids base ours theirs) (start base) ∙ (among_ids j).1

  dropped-merge :
      (j : ColId)
      → lookup j (merge base ours theirs).result.dropped
        ≡ (if goes (verdict j) then some 0 else none)
  unfolding merge lookup
  dropped-merge j =
      dropped-merge_loop j (all_ids base ours theirs) (start base)
      ∙ ap (λ (b : Bool). if b then some 0 else none) (among_ids j).2

  -- `Merge`, of each column: the result has it exactly as the three-way rule decides, comparing names,
  -- types and nullability; there is a conflict on it exactly where the rule has none to give; and it
  -- is listed as dropped exactly where the rule leaves none and the base has it.
  pub merge-three_way :
      (j : ColId)
      → let decided = three_way (column base j) (column ours j) (column theirs j) in
        (column (merge base ours theirs).result j ≡ merged decided)
        × (has_conflict j (merge base ours theirs).conflicts ≡ is_conflict decided)
        × (lookup j (merge base ours theirs).result.dropped
            ≡ (if is_removal decided && is_some (column base j) then some 0 else none))
  merge-three_way j =
      let decides = outcome-verdict j in
      (
        column-merge j ∙ kept-outcome (verdict j) ∙ ap merged decides,
        conflict-merge j ∙ clashes-outcome (verdict j) ∙ ap is_conflict decides,
        dropped-merge j
            ∙ ap (λ (b : Bool). if b then some 0 else none)
                (goes-verdict j
                  ∙ ap (λ (r : Option (Option Column)). is_removal r && is_some (column base j))
                      decides),
      )
