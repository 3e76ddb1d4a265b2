-- ===== src/Examples/Histories.antt =====
-- The theorems on commits, branches and reads at concrete inputs.
use datagit.Prelude.{
  ◌+◌, ◌<◌, ◌≡◌, ◌≢◌, Bool, none, some, List, [], ◌∷◌, Bytes, codes, bytes_eq, nat_eq, bytes_beq,
  arith, if◌then◌else◌, or_else,
}
use datagit.Maps.{lookup, put}
use datagit.Maps.Collect.{bind}
use datagit.Core.Value.{int, equal}
use datagit.Core.Row.{Row, get}
use datagit.Core.Change.{insert, delete}
use datagit.Engine.State.{
  Version, Segment, Engine, CommitMeta, root_branch, segment, max_seq, commit_name,
}
use datagit.Engine.State as EngineState
use datagit.Engine.Resolve.{resolve, resolve_chain, resolve_filtered, state_at_commit}
use datagit.Engine.Resolve.Winner.{session_winner}
use datagit.Engine.History.Shown.{chain_shows, row_shown, resolve_chain_shows}
use datagit.Engine.Resolve.Filtered.{lookup-resolve_filtered}
use datagit.Engine.Commit.{commit, create_branch}
use datagit.Engine.Commit.Effect.{applied}
use datagit.Engine.Commit.Correct.{commit-IsSane, resolve-commit, commit_isolated}
use datagit.Engine.Commit.Branching.{create_branch-IsSane, resolve-create_branch, new-IsSane}
use datagit.Engine.Publish.Invariant.{IsSane}
use datagit.Model.State.{Repo, new}
use datagit.Model.State as ModelState
use datagit.Model.Refinement.Runs.{
  Operation, commit_to, branch_from, run_engine, run_model, run_agrees,
}
use datagit.Examples.{
  schema, dev, row_of, key, first_changes, second_changes, first-IsKeyed, second-IsKeyed,
  main_branch, start, main_found, dev_free,
}

abbrev calls : List Operation
calls =
    commit_to root_branch first_changes
    ∷ branch_from dev root_branch
    ∷ commit_to dev second_changes
    ∷ []

run_agrees_example :
    ((x : Bytes)
      → lookup key (resolve (run_engine calls start) x)
        ≡ lookup key (ModelState.resolve (run_model calls (new schema)) x))
    × ((id : Bytes)
        → lookup key (state_at_commit (run_engine calls start) id)
          ≡ lookup key (ModelState.resolve_at (run_model calls (new schema)) id))
run_agrees_example = run_agrees schema calls key (omega arith) (first-IsKeyed, (second-IsKeyed, tt))

start_room : EngineState.head_seq start root_branch + 1 < max_seq
unfolding EngineState.new EngineState.head_seq lookup put bytes_beq
start_room = omega arith

resolve-commit_example :
    lookup key (resolve (commit start root_branch first_changes).0 root_branch)
    ≡ applied (lookup key first_changes) (lookup key (resolve start root_branch))
resolve-commit_example =
    resolve-commit start root_branch main_branch first_changes (new-IsSane schema) main_found
      (omega arith) first-IsKeyed key

commit-IsSane_example : IsSane (commit start root_branch first_changes).0
commit-IsSane_example =
    commit-IsSane start root_branch main_branch first_changes (new-IsSane schema) main_found
      (omega arith) first-IsKeyed

commit_isolated_example :
    ((x : Bytes) (b : EngineState.Branch)
      → lookup x start.branches ≡ some b
      → root_branch ≢ x
      → lookup key (resolve (commit start root_branch first_changes).0 x)
        ≡ lookup key (resolve start x))
    × ((c : Bytes) (cm : CommitMeta)
        → lookup c start.commits ≡ some cm
        → lookup key (state_at_commit (commit start root_branch first_changes).0 c)
          ≡ lookup key (state_at_commit start c))
commit_isolated_example =
    commit_isolated start root_branch main_branch first_changes (new-IsSane schema) main_found
      (omega arith) first-IsKeyed key

create_branch-IsSane_example : IsSane (create_branch start dev root_branch).0
create_branch-IsSane_example =
    create_branch-IsSane start dev root_branch main_branch (new-IsSane schema) dev_free main_found

resolve-create_branch_example :
    (lookup key (resolve (create_branch start dev root_branch).0 dev)
      ≡ lookup key (resolve start root_branch))
    × ((x : Bytes) (r : EngineState.Branch)
        → lookup x start.branches ≡ some r
        → lookup key (resolve (create_branch start dev root_branch).0 x)
          ≡ lookup key (resolve start x))
    × ((create_branch start dev root_branch).0.rows ≡ start.rows)
resolve-create_branch_example =
    resolve-create_branch start dev root_branch main_branch (new-IsSane schema) dev_free main_found
      key

-- A deletion on a branch over a row that it inherits.
abbrev inherited : Version
inherited = record {
  branch = root_branch;
  pk = key;
  seq_from = 1;
  seq_to = max_seq;
  op = insert;
  commit = codes "c2";
  session = [];
  changed = 6 ∷ [];
  row = row_of 7 1;
}

abbrev deleted : Version
deleted = record inherited { branch = dev; op = delete; commit = codes "c3"; row = none }

abbrev dev_chain : List Segment
dev_chain = segment dev 1 ∷ segment root_branch 1 ∷ []

resolve_chain_shows_example :
    lookup key (resolve_chain (inherited ∷ deleted ∷ []) dev_chain [])
    ≡ bind
        (or_else
          (session_winner [] (inherited ∷ deleted ∷ []) key)
          (chain_shows (inherited ∷ deleted ∷ []) dev_chain key))
        (λ v. row_shown v.op v.row)
resolve_chain_shows_example = resolve_chain_shows (inherited ∷ deleted ∷ []) dev_chain [] key

-- The rows whose value column is 1.
abbrev ones : Row → Bool
ones row = equal (get row 2) (int 1)

lookup-resolve_filtered_example :
    lookup key (resolve_filtered (record start { rows = inherited ∷ [] }) root_branch ones)
    ≡ bind
        (lookup key (resolve (record start { rows = inherited ∷ [] }) root_branch))
        (λ row. if ones row then some row else none)
lookup-resolve_filtered_example =
    lookup-resolve_filtered ones (record start { rows = inherited ∷ [] }) root_branch key
