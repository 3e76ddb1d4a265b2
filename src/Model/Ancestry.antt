-- ===== src/Model/Ancestry.antt =====
-- `ancestors` and `MergeBase` of internal/model/model.go: depth-first search over the commit DAG.
pub mod Walk
pub mod Agree
use datagit.Prelude.{
  ℕ, zero, suc, Bool, true, false, not, ◌&&◌, ◌||◌, none, some, List, [], ◌∷◌, Bytes, bytes_beq,
  bytes_eq, bytes_ltb, length, insertion_sort, contains,
}
use datagit.Maps.{Map, lookup}
use datagit.Engine.Ancestry.{filter, lowest}
use datagit.Model.State.{Commit}

-- The parents of a commit, none for an id that is not in the map.
unfoldable pub parents_of : Map Bytes Commit → Bytes → List Bytes
parents_of commits id = elim (lookup id commits) [ none ↦ [] | some c ↦ c.parents ]

-- The loop over the parents of one commit.
unfoldable pub walk_each : (Bytes → List Bytes → List Bytes) → List Bytes → List Bytes → List Bytes
walk_each f [] seen = seen
walk_each f (p ∷ ps) seen = walk_each f ps (f p seen)

-- `walk`, with a bound on its depth.
unfoldable pub walk : ℕ → Map Bytes Commit → Bytes → List Bytes → List Bytes
unfolding walk_each parents_of
walk zero commits id seen = seen
walk (suc fuel) commits id seen = elim (contains id seen) [
  | true ↦ seen
  | false ↦ walk_each (walk fuel commits) (parents_of commits id) (id ∷ seen)
]

-- `ancestors`: below the start, each level is a commit of the map or an id without parents.
unfoldable pub ancestors : Map Bytes Commit → Bytes → List Bytes
unfolding walk
ancestors commits id = walk (suc (suc (length commits))) commits id []

-- `r.ancestors(a)[c]`
unfoldable pub is_ancestor : Map Bytes Commit → Bytes → Bytes → Bool
unfolding ancestors
is_ancestor commits a c = contains c (ancestors commits a)

-- `MergeBase`: its loops are those of the engine.
unfoldable pub merge_base : Map Bytes Commit → Bytes → Bytes → List Bytes
unfolding is_ancestor filter lowest
merge_base commits a b =
    lowest (is_ancestor commits) (filter (λ id. is_ancestor commits b id) (ancestors commits a))
