-- ===== src/Examples/Landings.antt =====
-- The theorems on `Merge` and `UpdateFromParent` at a concrete engine: a branch with one commit, and its
-- parent with another.
use datagit.Prelude.{
  ℕ, ◌≡◌, ◌≢◌, refl, true, false, some, [], ◌∷◌, Bytes, bytes_eq, bytes_beq, arith, insertion_sort,
  dedup, decimal, contains, ◌↔◌,
}
use datagit.Maps.{Map, lookup, put}
use datagit.Maps.Collect.{keys, collect, values}
use datagit.Core.Change.{sort_conflicts, sorted, is_delete}
use datagit.Engine.State.{Engine, CommitMeta, root_branch, commit_name, segment}
use datagit.Engine.State as EngineState
use datagit.Engine.Resolve.{resolve, state_at_commit}
use datagit.Engine.Commit.{commit, create_branch}
use datagit.Engine.Commit.Branching.{create_branch-IsSane, new-IsSane}
use datagit.Engine.Commit.Correct.{commit-IsSane}
use datagit.Engine.Ancestry.{merge_base}
use datagit.Engine.Publish.Invariant.{IsSane}
use datagit.Engine.Merging.{merge, merge_heads, is_clean, update_from_parent}
use datagit.Merge.Cells.{merge_states}
use datagit.Engine.Masks.{mask_since}
use datagit.Engine.Merging.Applied.{merged_row}
use datagit.Engine.Merging.Merged.{merge-IsSane, resolve-merge, merge_isolated}
use datagit.Engine.Merging.Absorbed.{
  forked, update_from_parent-IsSane, resolve-update_from_parent, update_from_parent_isolated,
}
use datagit.Engine.Ancestry.{parents_of, reach, is_seen}
use datagit.Engine.Ancestry.Search.{Reaches}
use datagit.Engine.Ancestry.Reached.{reach-Reaches}
use datagit.Engine.Ancestry.Bases.{IsBase, merge_base-IsBase}
use datagit.Model.Ancestry as ModelAncestry
use datagit.Model.Ancestry.Agree.{merge_bases_agree}
use datagit.Model.State.{new}
use datagit.Examples.{
  schema, dev, key, first_changes, first-IsKeyed, main_branch, start, main_found, dev_free,
}

abbrev forked_start : Engine
forked_start = (create_branch start dev root_branch).0

abbrev dev_branch : EngineState.Branch
dev_branch = record {
  name = dev;
  head_seq = 0;
  head_commit = commit_name 1;
  parent = root_branch;
  fork_seq = 0;
  fork_commit = commit_name 1;
  chain = segment root_branch 0 ∷ [];
}

dev_found : lookup dev forked_start.branches ≡ some dev_branch
unfolding EngineState.new lookup put bytes_beq create_branch
dev_found = refl

abbrev ahead : Engine
ahead = (commit forked_start dev first_changes).0

ahead-IsSane : IsSane ahead
ahead-IsSane =
    commit-IsSane forked_start dev dev_branch first_changes
      (create_branch-IsSane start dev root_branch main_branch (new-IsSane schema) dev_free
        main_found)
      dev_found (omega arith) first-IsKeyed

abbrev dev_ahead : EngineState.Branch
dev_ahead = record dev_branch { head_seq = 1; head_commit = commit_name 2 }

ahead_found : lookup dev ahead.branches ≡ some dev_ahead
unfolding EngineState.new lookup put bytes_beq create_branch commit
ahead_found = refl

ahead_main : lookup root_branch ahead.branches ≡ some main_branch
unfolding EngineState.new lookup put bytes_beq create_branch commit
ahead_main = refl

ahead_base : merge_base ahead.commits (commit_name 1) (commit_name 2) ≡ commit_name 1 ∷ []
unfolding EngineState.new lookup put bytes_beq create_branch commit merge_base insertion_sort
    commit_name decimal keys
ahead_base = refl

ahead_clean : is_clean (merge_heads ahead root_branch dev (commit_name 1)).1 ≡ true
unfolding EngineState.new lookup put bytes_beq create_branch commit merge_heads sort_conflicts
    insertion_sort dedup keys state_at_commit commit_name decimal collect sorted values is_delete
    resolve
ahead_clean = refl

merge-IsSane_example : IsSane (merge ahead dev root_branch).0
merge-IsSane_example =
    merge-IsSane ahead dev root_branch (commit_name 1) dev_ahead main_branch ahead-IsSane
      ahead_found ahead_main ahead_base ahead_clean (omega arith)

resolve-merge_example :
    lookup key (resolve (merge ahead dev root_branch).0 root_branch)
    ≡ merged_row (lookup key (resolve ahead root_branch)) (
        lookup key
          (merge_states ahead.schema.cols
            (state_at_commit ahead (commit_name 1))
            (resolve ahead root_branch)
            (resolve ahead dev)
            (mask_since ahead root_branch (commit_name 1))
            (mask_since ahead dev (commit_name 1))).0)
resolve-merge_example =
    resolve-merge ahead dev root_branch (commit_name 1) dev_ahead main_branch ahead-IsSane
      ahead_found ahead_main ahead_base ahead_clean (omega arith) key

merge_isolated_example :
    ((x : Bytes) (r : EngineState.Branch)
      → lookup x ahead.branches ≡ some r
      → root_branch ≢ x
      → lookup key (resolve (merge ahead dev root_branch).0 x) ≡ lookup key (resolve ahead x))
    × ((c : Bytes) (cm : CommitMeta)
        → lookup c ahead.commits ≡ some cm
        → lookup key (state_at_commit (merge ahead dev root_branch).0 c)
          ≡ lookup key (state_at_commit ahead c))
merge_isolated_example =
    merge_isolated ahead dev root_branch (commit_name 1) dev_ahead main_branch ahead-IsSane
      ahead_found ahead_main ahead_base ahead_clean (omega arith) key

-- The parent ahead of the branch.
abbrev behind : Engine
behind = (commit forked_start root_branch first_changes).0

fork_main : lookup root_branch forked_start.branches ≡ some main_branch
unfolding EngineState.new lookup put bytes_beq create_branch
fork_main = refl

behind-IsSane : IsSane behind
behind-IsSane =
    commit-IsSane forked_start root_branch main_branch first_changes
      (create_branch-IsSane start dev root_branch main_branch (new-IsSane schema) dev_free
        main_found)
      fork_main (omega arith) first-IsKeyed

abbrev main_ahead : EngineState.Branch
main_ahead = record main_branch { head_seq = 1; head_commit = commit_name 2 }

behind_dev : lookup dev behind.branches ≡ some dev_branch
unfolding EngineState.new lookup put bytes_beq create_branch commit
behind_dev = refl

behind_main : lookup root_branch behind.branches ≡ some main_ahead
unfolding EngineState.new lookup put bytes_beq create_branch commit
behind_main = refl

is_child : bytes_beq root_branch [] ≡ false
unfolding bytes_beq
is_child = refl

main_moved : bytes_beq (commit_name 2) (commit_name 1) ≡ false
unfolding bytes_beq commit_name decimal
main_moved = refl

behind_clean : is_clean (merge_heads behind dev root_branch (commit_name 1)).1 ≡ true
unfolding EngineState.new lookup put bytes_beq create_branch commit merge_heads sort_conflicts
    insertion_sort dedup keys state_at_commit commit_name decimal collect sorted values is_delete
    resolve
behind_clean = refl

update_from_parent-IsSane_example : IsSane (update_from_parent behind dev).0
update_from_parent-IsSane_example =
    update_from_parent-IsSane behind dev dev_branch main_ahead behind-IsSane behind_dev is_child
      behind_main main_moved behind_clean (omega arith)

resolve-update_from_parent_example :
    lookup key (resolve (update_from_parent behind dev).0 dev)
    ≡ merged_row (lookup key (resolve (forked behind dev dev_branch main_ahead) dev)) (
        lookup key
          (merge_states behind.schema.cols
            (state_at_commit behind (commit_name 1))
            (resolve behind dev)
            (resolve behind root_branch)
            (mask_since behind dev (commit_name 1))
            (mask_since behind root_branch (commit_name 1))).0)
resolve-update_from_parent_example =
    resolve-update_from_parent behind dev dev_branch main_ahead behind-IsSane behind_dev is_child
      behind_main main_moved behind_clean (omega arith) key

update_from_parent_isolated_example :
    ((x : Bytes) (r : EngineState.Branch)
      → lookup x behind.branches ≡ some r
      → dev ≢ x
      → lookup key (resolve (update_from_parent behind dev).0 x) ≡ lookup key (resolve behind x))
    × ((c : Bytes) (cm : CommitMeta)
        → lookup c behind.commits ≡ some cm
        → lookup key (state_at_commit (update_from_parent behind dev).0 c)
          ≡ lookup key (state_at_commit behind c))
update_from_parent_isolated_example =
    update_from_parent_isolated behind dev dev_branch main_ahead behind-IsSane behind_dev is_child
      behind_main main_moved behind_clean (omega arith) key

reach-Reaches_example :
    (dist : Map Bytes ℕ) × (reach ahead.commits (commit_name 2) ≡ some dist)
    × ((x : Bytes) → (is_seen dist x ≡ true) ↔ Reaches (parents_of ahead.commits) (commit_name 2) x)
reach-Reaches_example = reach-Reaches ahead.commits (commit_name 2)

merge_base-IsBase_example :
    (contains (commit_name 1) (merge_base ahead.commits (commit_name 1) (commit_name 2)) ≡ true)
    ↔ IsBase (parents_of ahead.commits) (commit_name 1) (commit_name 2) (commit_name 1)
merge_base-IsBase_example =
    merge_base-IsBase ahead.commits (commit_name 1) (commit_name 2) (commit_name 1)

root_parents :
    (id : Bytes) → parents_of start.commits id ≡ ModelAncestry.parents_of (new schema).commits id
unfolding parents_of ModelAncestry.parents_of EngineState.new new lookup put
root_parents id = ground arith

merge_bases_agree_example :
    contains (commit_name 1) (merge_base start.commits (commit_name 1) (commit_name 1))
    ≡ contains
        (commit_name 1)
        (ModelAncestry.merge_base (new schema).commits (commit_name 1) (commit_name 1))
merge_bases_agree_example =
    merge_bases_agree start.commits (new schema).commits (commit_name 1) (commit_name 1)
      (commit_name 1) root_parents
