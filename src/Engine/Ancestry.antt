-- ===== src/Engine/Ancestry.antt =====
-- `MergeBase` of internal/engine/engine.go: breadth-first search over the commit DAG.
pub mod Search
pub mod Reached
pub mod Bases
use datagit.Prelude.{
  ℕ, zero, suc, ◌+◌, Bool, true, false, not, ◌&&◌, ◌||◌, Option, none, some, List, [], ◌∷◌, ◌++◌,
  Bytes, bytes_beq, bytes_eq, bytes_ltb, length, insertion_sort, if◌then◌else◌,
}
use datagit.Maps.{Map, lookup, put}
use datagit.Maps.Collect.{keys}
use datagit.Engine.State.{CommitMeta}

-- `_, seen := dist[p]`
unfoldable pub is_seen : Map Bytes ℕ → Bytes → Bool
is_seen dist id = elim (lookup id dist) [ none ↦ false | some d ↦ true ]

-- The loop over the parents of one commit: `dist` and the ids to append to the queue.
unfoldable pub visit : ℕ → List Bytes → Map Bytes ℕ × List Bytes → Map Bytes ℕ × List Bytes
unfolding is_seen
visit d [] acc = acc
visit d (p ∷ ps) (dist, queue) =
    visit d ps (if is_seen dist p then (dist, queue) else (put p d dist, queue ++ p ∷ []))

-- `dist[cur]`: the zero value of a missing key is 0.
unfoldable pub dist_at : Map Bytes ℕ → Bytes → ℕ
dist_at dist id = elim (lookup id dist) [ none ↦ 0 | some d ↦ d ]

-- `cm.Parents`, where the `continue` on a missing commit is the empty list.
unfoldable pub parents_of : Map Bytes CommitMeta → Bytes → List Bytes
parents_of commits id = elim (lookup id commits) [ none ↦ [] | some cm ↦ cm.parents ]

-- The loop of `reach`, with a bound on its rounds.
unfoldable pub reach_loop :
    ℕ → Map Bytes CommitMeta → List Bytes → Map Bytes ℕ → Option (Map Bytes ℕ)
unfolding visit dist_at parents_of
reach_loop fuel commits [] dist = some dist
reach_loop zero commits (cur ∷ queue) dist = none
reach_loop (suc fuel) commits (cur ∷ queue) dist =
    let next = visit (dist_at dist cur + 1) (parents_of commits cur) (dist, queue) in
    reach_loop fuel commits next.1 next.0

-- The parents of all commits, which bound the rounds.
unfoldable pub all_parents : Map Bytes CommitMeta → List Bytes
all_parents [] = []
all_parents ((id, cm) ∷ commits) = cm.parents ++ all_parents commits

-- `reach`
unfoldable pub reach : Map Bytes CommitMeta → Bytes → Option (Map Bytes ℕ)
unfolding reach_loop all_parents
reach commits start =
    reach_loop (suc (length (all_parents commits))) commits (start ∷ []) (put start 0 [])

-- `reach(a)[c]`
unfoldable pub is_reached : Map Bytes CommitMeta → Bytes → Bytes → Bool
unfolding is_seen reach
is_reached commits a c = elim (reach commits a) [ none ↦ false | some dist ↦ is_seen dist c ]

-- The inner loop of `MergeBase`: another common ancestor reaches `c`.
unfoldable pub is_dominated : (Bytes → Bytes → Bool) → Bytes → List Bytes → Bool
is_dominated reached c [] = false
is_dominated reached c (o ∷ common) =
    (not (bytes_beq o c) && reached o c) || is_dominated reached c common

-- The elements with a property, in order.
unfoldable pub filter : (Bytes → Bool) → List Bytes → List Bytes
filter p [] = []
filter p (x ∷ xs) = let rest = filter p xs in if p x then x ∷ rest else rest

-- The outer loop and the sort.
unfoldable pub lowest : (Bytes → Bytes → Bool) → List Bytes → List Bytes
unfolding is_dominated filter
lowest reached common =
    insertion_sort bytes_ltb (filter (λ c. not (is_dominated reached c common)) common)

-- The ids that `reach` finds from both heads.
unfoldable pub common_ancestors : Map Bytes CommitMeta → Bytes → Bytes → List Bytes
unfolding reach is_reached filter
common_ancestors commits a b = elim (reach commits a) [
  | none ↦ []
  | some dist ↦ filter (λ id. is_reached commits b id) (keys dist)
]

-- `MergeBase`
unfoldable pub merge_base : Map Bytes CommitMeta → Bytes → Bytes → List Bytes
unfolding common_ancestors lowest
merge_base commits a b = lowest (is_reached commits) (common_ancestors commits a b)
