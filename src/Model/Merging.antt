-- ===== src/Model/Merging.antt =====
-- `Merge` and `UpdateFromParent` of internal/model/model.go.
use datagit.Prelude.{
  ◌+◌, true, none, some, [], ◌∷◌, Bytes, bytes_beq, bytes_eq, if◌then◌else◌, Result, ok, err,
  no_branch, no_parent, merge_bases, nil_pointer,
}
use datagit.Maps.{lookup}
use datagit.Merge.Cells.{merge_tables}
use datagit.Engine.State.{commit_name}
use datagit.Engine.Merging.{MergeResult, is_clean, merge_result}
use datagit.Model.State.{Branch, Repo}
use datagit.Model.Commit.{publish}
use datagit.Model.Ancestry.{merge_base}

-- The merge of two branches' heads over a base, published on the branch `into` when it is clean, with
-- `moved` in place of the branch. A commit that is not in the map is a nil pointer.
unfoldable pub merge_onto :
    Repo → Bytes → Branch → Bytes → Bytes → Branch → Repo × Result MergeResult
unfolding merge_tables publish merge_result
merge_onto r into tb from_head base moved = elim (lookup base r.commits) [
  | none ↦ (r, err nil_pointer)
  | some origin ↦ elim (lookup tb.head r.commits) [
    | none ↦ (r, err nil_pointer)
    | some ours ↦ elim (lookup from_head r.commits) [
      | none ↦ (r, err nil_pointer)
      | some theirs ↦
          let merged = merge_tables r.schema.cols origin.state ours.state theirs.state in
          if is_clean merged.1
          then (
            publish r into moved (tb.head ∷ from_head ∷ []) (ours.seq + 1) merged.0,
            ok (merge_result base merged (commit_name (r.next_id + 1))),
          )
          else (r, ok (merge_result base merged []))
    ]
  ]
]

-- `Merge`
unfoldable pub merge : Repo → Bytes → Bytes → Repo × Result MergeResult
unfolding merge_onto merge_base
merge r from into = elim (lookup from r.branches) [
  | none ↦ (r, err no_branch)
  | some fb ↦ elim (lookup into r.branches) [
    | none ↦ (r, err no_branch)
    | some tb ↦ elim (merge_base r.commits tb.head fb.head) [
      | [] ↦ (r, err merge_bases)
      | (base ∷ bases) ↦ elim bases [
        | [] ↦ merge_onto r into tb fb.head base tb
        | (_ ∷ _) ↦ (r, err merge_bases)
      ]
    ]
  ]
]

-- `UpdateFromParent`: a parent that is not in the map is a nil pointer.
unfoldable pub update_from_parent : Repo → Bytes → Repo × Result MergeResult
unfolding merge_onto
update_from_parent r branch = elim (lookup branch r.branches) [
  | none ↦ (r, err no_branch)
  | some b ↦
      if bytes_beq b.parent [] then (r, err no_parent) else elim (lookup b.parent r.branches) [
        | none ↦ (r, err nil_pointer)
        | some p ↦
            if bytes_beq p.head b.fork_commit
            then elim (lookup b.head r.commits) [
              | none ↦ (r, err nil_pointer)
              | some head ↦ (
                r,
                ok (record {
                  base = b.fork_commit;
                  result = head.state;
                  conflicts = [];
                  clean = true;
                  commit = [];
                }),
              )
            ]
            else merge_onto r branch b p.head b.fork_commit (record b { fork_commit = p.head })
      ]
]
