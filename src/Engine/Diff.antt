-- ===== src/Engine/Diff.antt =====
-- `Diff` and the counting probes of internal/engine/engine.go.
pub mod Quiet
pub mod Correct
pub mod Commits
use datagit.Prelude.{
  ℕ, suc, Bool, true, not, ◌&&◌, Option, none, some, List, [], ◌∷◌, Bytes, bytes_beq, bytes_eq,
  nat_beq, if◌then◌else◌,
}
use datagit.Maps.{Map, lookup, put}
use datagit.Maps.Collect.{collect}
use datagit.Core.Mask.{ColId}
use datagit.Core.Row.{Row, mask_of}
use datagit.Core.Row as Row
use datagit.Core.Key.{Pk}
use datagit.Core.Change.{insert, update, delete, Change, ChangeSet}
use datagit.Engine.State.{Version, Engine, max_seq, chain_for}
use datagit.Engine.Resolve.{resolve_chain}
use datagit.Engine.Masks.{wrote_in}

-- The keys that the branch wrote in the range.
unfoldable pub touched : (Version → Bool) → List Version → Map Pk Bool → Map Pk Bool
touched test [] seen = seen
touched test (v ∷ rows) seen = touched test rows (if test v then put v.pk true seen else seen)

-- The `switch` of `Diff` for one touched key.
unfoldable pub change_between : List ColId → Pk → Option Row → Option Row → Option Change
change_between cols pk none none = none
change_between cols pk (some before) none =
    some (record { pk = pk; op = delete; row = none; changed = [] })
change_between cols pk none (some after) =
    some (record { pk = pk; op = insert; row = after; changed = mask_of none after cols })
change_between cols pk (some before) (some after) =
    if Row.equal before after
    then none
    else some (record { pk = pk; op = update; row = after; changed = mask_of before after cols })

-- `Diff`
unfoldable pub diff : Engine → Bytes → ℕ → ℕ → ChangeSet
unfolding resolve_chain chain_for touched wrote_in change_between
diff e branch from_seq to_seq =
    let from = resolve_chain e.rows (chain_for e.branches branch from_seq) [] in
    let to = resolve_chain e.rows (chain_for e.branches branch to_seq) [] in
    collect (λ pk b. change_between e.schema.cols pk (lookup pk from) (lookup pk to))
      (touched (wrote_in branch from_seq to_seq) e.rows [])
