-- ===== src/Model/Reads.antt =====
-- `Diff`, `ResolveFiltered` and `PlanUpdateWhere` of internal/model/model.go.
use datagit.Prelude.{Bool, Option, none, some, List, [], ◌∷◌, Bytes, bytes_eq, if◌then◌else◌}
use datagit.Maps.{lookup, put}
use datagit.Maps.Collect.{collect}
use datagit.Core.Mask.{ColId}
use datagit.Core.Row.{Row, mask_of}
use datagit.Core.Row as Row
use datagit.Core.Key.{Pk}
use datagit.Core.Change.{insert, update, delete, Change, ChangeSet, Table}
use datagit.Model.State.{Repo, resolve, resolve_at}

-- The first loop of `Diff`: the keys of the first table.
unfoldable pub diff_from : List ColId → Table → Pk → Row → Option Change
diff_from cols to pk fr = elim (lookup pk to) [
  | none ↦ some (record { pk = pk; op = delete; row = none; changed = [] })
  | some tr ↦
      if Row.equal fr tr
      then none
      else some (record { pk = pk; op = update; row = tr; changed = mask_of fr tr cols })
]

-- The second loop: the keys that the first table does not have.
unfoldable pub diff_to : List ColId → Table → Table → ChangeSet → ChangeSet
diff_to cols from [] out = out
diff_to cols from ((pk, tr) ∷ to) out = diff_to cols from to (elim (lookup pk from) [
  | none ↦ put pk (record { pk = pk; op = insert; row = tr; changed = mask_of none tr cols }) out
  | some fr ↦ out
])

-- `Diff` of two tables, and of two commits.
unfoldable pub diff_tables : List ColId → Table → Table → ChangeSet
unfolding diff_from diff_to
diff_tables cols from to = diff_to cols from to (collect (diff_from cols to) from)

unfoldable pub diff : Repo → Bytes → Bytes → ChangeSet
unfolding diff_tables resolve_at
diff r from to = diff_tables r.schema.cols (resolve_at r from) (resolve_at r to)

-- `ResolveFiltered`
unfoldable pub resolve_filtered : Repo → Bytes → (Row → Bool) → Table
unfolding resolve
resolve_filtered r branch pred =
    collect (λ pk row. if pred row then some row else none) (resolve r branch)

-- The loop body of `PlanUpdateWhere`.
unfoldable pub plan : (Row → Row) → Pk → Row → Option Change
plan assign pk row =
    let next = assign row in
    if Row.equal next row
    then none
    else some (record { pk = pk; op = update; row = next; changed = [] })

-- `PlanUpdateWhere`
unfoldable pub plan_update_where : Repo → Bytes → (Row → Bool) → (Row → Row) → ChangeSet
unfolding resolve_filtered plan
plan_update_where r branch pred assign = collect (plan assign) (resolve_filtered r branch pred)
