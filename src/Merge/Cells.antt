-- ===== src/Merge/Cells.antt =====
-- The cells of a row that both sides changed: every column (`mergeCells` of internal/model/model.go),
-- and the columns of the masks only (`mergeStates` of internal/engine/engine.go).
use datagit.Prelude.{
  true, Option, none, some, List, [], ◌∷◌, ◌++◌, if◌then◌else◌, contains, nat_eq, bytes_eq,
}
use datagit.Maps.{Map, lookup, put}
use datagit.Core.Mask.{ColId, ColMask, union_cols}
use datagit.Core.Value.{Value}
use datagit.Core.Value as Value
use datagit.Core.Row.{Row, get}
use datagit.Core.Key.{Pk}
use datagit.Core.Change.{Table, Conflict, cell}
use datagit.Merge.{Outcome, resolved, conflicted, three_way}

-- One cell: the value, or `none` for a conflict.
unfoldable pub merge_cell : Value → Value → Value → Option Value
merge_cell bv av tv =
    if Value.equal av bv
    then some tv
    else if Value.equal tv bv
    then some av
    else if Value.equal av tv
    then some av
    else none

abbrev pub cell_conflict : Pk → ColId → Value → Value → Value → Conflict
cell_conflict pk c bv av tv = record {
  pk = pk;
  kind = cell;
  col = c;
  has_col = true;
  base = bv;
  ours = av;
  theirs = tv;
}

abbrev pub Cells : Type 0
Cells = Map ColId Value × List Conflict

-- One round of the loop over columns.
unfoldable pub step_cell : Pk → Row → Row → Row → ColId → Cells → Cells
step_cell pk b a t c (merged, clashes) = elim (merge_cell (get b c) (get a c) (get t c)) [
  | some v ↦ (put c v merged, clashes)
  | none ↦ (merged, clashes ++ cell_conflict pk c (get b c) (get a c) (get t c) ∷ [])
]

unfoldable pub loop_cells : Pk → Row → Row → Row → List ColId → Cells → Cells
loop_cells pk b a t [] acc = acc
loop_cells pk b a t (c ∷ cs) acc = loop_cells pk b a t cs (step_cell pk b a t c acc)

-- `if len(clashes) > 0`
unfoldable pub decide : Cells → Outcome
decide (merged, []) = resolved (some (some merged))
decide (merged, (k ∷ clashes)) = conflicted (k ∷ clashes)

-- `mergeCells`: every column of the schema.
unfoldable pub merge_cells : List ColId → Pk → Row → Row → Row → Outcome
unfolding merge_cell step_cell loop_cells decide
merge_cells cols pk b a t = decide (loop_cells pk b a t cols ([], []))

-- The columns outside the candidates keep the base value.
unfoldable pub untouched : List ColId → Row → List ColId → Map ColId Value → Map ColId Value
untouched candidates b [] merged = merged
untouched candidates b (c ∷ cs) merged =
    untouched candidates b cs (if contains c candidates then merged else put c (get b c) merged)

-- The `default` case of `mergeStates`.
unfoldable pub narrow_cells : List ColId → ColMask → ColMask → Pk → Row → Row → Row → Outcome
unfolding merge_cell step_cell loop_cells untouched decide
narrow_cells cols mo mt pk b a t =
    let candidates = union_cols mo mt in
    decide (loop_cells pk b a t candidates (untouched candidates b cols [], []))

-- `mask[pk]`: the zero value of a missing key is the empty mask.
unfoldable pub mask_at : Map Pk ColMask → Pk → ColMask
mask_at masks pk = elim (lookup pk masks) [ none ↦ [] | some m ↦ m ]

-- `mergeTables` of internal/model/model.go.
unfoldable pub merge_tables : List ColId → Table → Table → Table → Table × List Conflict
unfolding three_way merge_cells
merge_tables cols = three_way (λ pk. merge_cells cols pk)

-- `mergeStates` of internal/engine/engine.go.
unfoldable pub merge_states :
    List ColId → Table → Table → Table → Map Pk ColMask → Map Pk ColMask → Table × List Conflict
unfolding three_way narrow_cells mask_at
merge_states cols base ours theirs mask_o mask_t =
    three_way (λ pk. narrow_cells cols (mask_at mask_o pk) (mask_at mask_t pk) pk) base ours theirs
