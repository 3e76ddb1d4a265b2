-- ===== src/Merge/Results.antt =====
-- The merged table of `mergeStates` of internal/engine/engine.go holds no key twice.
use datagit.Prelude.{none, some, List, [], ◌∷◌, bytes_eq}
use datagit.Maps.{Map, lookup, IsMap, put-IsMap}
use datagit.Core.Mask.{ColId, ColMask}
use datagit.Core.Row.{Row}
use datagit.Core.Key.{Pk}
use datagit.Core.Change.{Table, Conflict}
use datagit.Merge.{Outcome, resolved, conflicted, place, merge_key, all_keys, merge_loop, three_way}
use datagit.Merge.Cells.{narrow_cells, mask_at, merge_states}

place-IsMap :
    (pk : Pk) (o : Outcome) (t : Table) (ks : List Conflict)
    → IsMap t
    → IsMap (place pk o (t, ks)).0
unfolding place
place-IsMap pk (resolved none) t ks h = h
place-IsMap pk (resolved (some r)) t ks h = put-IsMap pk r t h
place-IsMap pk (conflicted cs) t ks h = h

merge_loop-IsMap :
    (f : Pk → Outcome) (pks : List Pk) (t : Table) (ks : List Conflict)
    → IsMap t
    → IsMap (merge_loop f pks (t, ks)).0
unfolding merge_loop
merge_loop-IsMap f [] t ks h = h
merge_loop-IsMap f (pk ∷ pks) t ks h =
    merge_loop-IsMap f pks (place pk (f pk) (t, ks)).0 (place pk (f pk) (t, ks)).1
      (place-IsMap pk (f pk) t ks h)

three_way-IsMap :
    (cells : Pk → Row → Row → Row → Outcome) (base ours theirs : Table)
    → IsMap (three_way cells base ours theirs).0
unfolding three_way
three_way-IsMap cells base ours theirs =
    merge_loop-IsMap
      (λ pk. merge_key (cells pk) pk (lookup pk base) (lookup pk ours) (lookup pk theirs))
      (all_keys base ours theirs) [] [] tt

pub merge_states-IsMap :
    (cols : List ColId) (base ours theirs : Table) (mask_o mask_t : Map Pk ColMask)
    → IsMap (merge_states cols base ours theirs mask_o mask_t).0
unfolding merge_states
merge_states-IsMap cols base ours theirs mask_o mask_t =
    three_way-IsMap (λ pk. narrow_cells cols (mask_at mask_o pk) (mask_at mask_t pk) pk) base ours
      theirs
