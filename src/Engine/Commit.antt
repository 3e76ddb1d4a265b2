-- ===== src/Engine/Commit.antt =====
-- Writes of internal/engine/engine.go: `closeOpen`, `Commit` and `CreateBranch`.
pub mod Effect
pub mod Correct
pub mod Branching
use datagit.Prelude.{
  ℕ, zero, suc, ◌+◌, Bool, true, false, not, ◌&&◌, ◌||◌, Option, none, some, List, [], ◌∷◌, ◌++◌,
  Bytes, bytes_beq, bytes_eq, leb, ltb, nat_beq, if◌then◌else◌, Result, ok, err, no_branch,
  branch_exists, no_parent, length,
}
use datagit.Maps.{Map, lookup, put}
use datagit.Core.Mask.{ColId}
use datagit.Core.Row.{Row, mask_of}
use datagit.Core.Key.{Pk}
use datagit.Core.Change.{Op, insert, update, delete, is_delete, Change, ChangeSet, Table, sorted}
use datagit.Engine.State.{
  Version, Segment, Branch, CommitMeta, Engine, max_seq, commit_name, chain_for,
  inherited_chain_from,
}
use datagit.Engine.Resolve.{resolve}

-- The version that `closeOpen` looks for.
unfoldable pub is_open_at : Bytes → Pk → Version → Bool
is_open_at branch pk v =
    bytes_beq v.branch branch
    && bytes_beq v.pk pk
    && (bytes_beq v.session [] && nat_beq v.seq_to max_seq)

-- `closeOpen`: it closes the first such version.
unfoldable pub close_open : Bytes → Pk → ℕ → List Version → List Version
unfolding is_open_at
close_open branch pk at [] = []
close_open branch pk at (v ∷ rows) =
    let rest = close_open branch pk at rows in
    if is_open_at branch pk v then record v { seq_to = at } ∷ rows else v ∷ rest

-- `current[pk]`: the zero value of a missing key is the nil row.
unfoldable pub row_or_nil : Option Row → Row
row_or_nil none = none
row_or_nil (some r) = r

abbrev pub is_live : Option Row → Bool
is_live none = false
is_live (some r) = true

-- Closes the open version of the key and appends the next one.
unfoldable pub write_version : Version → List Version → List Version
unfolding close_open
write_version v rows = close_open v.branch v.pk v.seq_from rows ++ v ∷ []

-- What one round of the loop of `Commit` writes; `before` is the key's row in the resolved state.
-- Deleting an absent row writes nothing.
unfoldable pub next_version : List ColId → Bytes → ℕ → Bytes → Option Row → Change → Option Version
unfolding row_or_nil
next_version cols branch new_seq id before ch =
    if is_delete ch.op
    then if is_live before
      then some (record {
        branch = branch;
        pk = ch.pk;
        seq_from = new_seq;
        seq_to = max_seq;
        op = delete;
        commit = id;
        session = [];
        changed = mask_of (row_or_nil before) none cols;
        row = none;
      })
      else none
    else some (record {
      branch = branch;
      pk = ch.pk;
      seq_from = new_seq;
      seq_to = max_seq;
      op = if is_live before then update else insert;
      commit = id;
      session = [];
      changed = mask_of (row_or_nil before) ch.row cols;
      row = ch.row;
    })

commit_change : Option Version → List Version → List Version
unfolding write_version
commit_change none rows = rows
commit_change (some v) rows = write_version v rows

-- The loop of `Commit`.
unfoldable pub commit_changes :
    List ColId → Bytes → ℕ → Bytes → Table → List Change → List Version → List Version
unfolding commit_change next_version
commit_changes cols branch new_seq id current [] rows = rows
commit_changes cols branch new_seq id current (ch ∷ chs) rows =
    commit_changes cols branch new_seq id current chs
      (commit_change (next_version cols branch new_seq id (lookup ch.pk current) ch) rows)

-- The end of `Commit`, `applyMergeResult` and `CommitSession`: the branch moves to the new commit,
-- and `recordCommit` stores the chain in force.
unfoldable pub advance : Bytes → Branch → ℕ → Bytes → List Bytes → List Version → Engine → Engine
unfolding chain_for
advance branch b new_seq id parents rows e =
    let branches = put branch (record b { head_seq = new_seq; head_commit = id }) e.branches in
    record e {
      rows = rows;
      branches = branches;
      commits =
          put id
            (record {
              id = id;
              parents = parents;
              branch = branch;
              seq = new_seq;
              chain = chain_for branches branch new_seq;
            })
            e.commits;
      next_id = e.next_id + 1;
    }

-- `Commit`
unfoldable pub commit : Engine → Bytes → ChangeSet → Engine × Result Bytes
unfolding commit_changes advance
commit e branch cs = elim (lookup branch e.branches) [
  | none ↦ (e, err no_branch)
  | some b ↦
      let new_seq = b.head_seq + 1 in
      let id = commit_name (e.next_id + 1) in
      let rows =
        commit_changes e.schema.cols branch new_seq id (resolve e branch) (sorted cs) e.rows in
      (advance branch b new_seq id (b.head_commit ∷ []) rows e, ok id)
]

-- `CreateBranch`
unfoldable pub create_branch : Engine → Bytes → Bytes → Engine × Result (Unit {0})
unfolding inherited_chain_from
create_branch e name from = elim (lookup name e.branches) [
  | some _ ↦ (e, err branch_exists)
  | none ↦ elim (lookup from e.branches) [
    | none ↦ (e, err no_parent)
    | some p ↦ (
      record e {
        branches =
            put name
              (record {
                name = name;
                head_seq = 0;
                head_commit = p.head_commit;
                parent = from;
                fork_seq = p.head_seq;
                fork_commit = p.head_commit;
                chain = inherited_chain_from from p;
              })
              e.branches;
      },
      ok tt,
    )
  ]
]

-- `ChainDepth`
unfoldable pub chain_depth : Engine → Bytes → ℕ
unfolding chain_for
chain_depth e branch = elim (lookup branch e.branches) [
  | none ↦ 0
  | some b ↦ length (chain_for e.branches branch b.head_seq)
]
