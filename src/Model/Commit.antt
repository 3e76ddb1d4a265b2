-- ===== src/Model/Commit.antt =====
-- `Commit` and `CreateBranch` of internal/model/model.go.
use datagit.Prelude.{
  ℕ, ◌+◌, none, some, List, [], ◌∷◌, Bytes, bytes_eq, if◌then◌else◌, Result, ok, err, no_branch,
  branch_exists, no_parent, nil_pointer,
}
use datagit.Maps.{lookup, put, remove}
use datagit.Core.Change.{is_delete, Change, ChangeSet, Table, sorted}
use datagit.Engine.State.{commit_name}
use datagit.Model.State.{Branch, Repo}

-- The loop of `apply`.
unfoldable pub apply_changes : List Change → Table → Table
apply_changes [] next = next
apply_changes (ch ∷ chs) next =
    apply_changes chs (if is_delete ch.op then remove ch.pk next else put ch.pk ch.row next)

-- `apply`
unfoldable pub apply : Table → ChangeSet → Table
unfolding apply_changes
apply state cs = apply_changes (sorted cs) state

-- Records a commit of the state on the branch, which moves to it.
unfoldable pub publish : Repo → Bytes → Branch → List Bytes → ℕ → Table → Repo
publish r branch b parents seq state =
    let id = commit_name (r.next_id + 1) in
    record r {
      commits =
          put id (record { id = id; parents = parents; branch = branch; seq = seq; state = state })
            r.commits;
      branches = put branch (record b { head = id }) r.branches;
      next_id = r.next_id + 1;
    }

-- `Commit`: a head that is not in the map is a nil pointer.
unfoldable pub commit : Repo → Bytes → ChangeSet → Repo × Result Bytes
unfolding apply publish
commit r branch cs = elim (lookup branch r.branches) [
  | none ↦ (r, err no_branch)
  | some b ↦ elim (lookup b.head r.commits) [
    | none ↦ (r, err nil_pointer)
    | some parent ↦ (
      publish r branch b (b.head ∷ []) (parent.seq + 1) (apply parent.state cs),
      ok (commit_name (r.next_id + 1)),
    )
  ]
]

-- `CreateBranch`
unfoldable pub create_branch : Repo → Bytes → Bytes → Repo × Result (Unit {0})
create_branch r name from = elim (lookup name r.branches) [
  | some _ ↦ (r, err branch_exists)
  | none ↦ elim (lookup from r.branches) [
    | none ↦ (r, err no_parent)
    | some p ↦ (
      record r {
        branches =
            put name (record { name = name; head = p.head; parent = from; fork_commit = p.head })
              r.branches;
      },
      ok tt,
    )
  ]
]
