-- ===== src/Examples/Diffs.antt =====
-- The theorems on `Diff` and on the probes at an engine with one commit.
use datagit.Prelude.{
  ◌<◌, ◌≡◌, refl, none, bytes_beq, contains, bytes_eq, decimal, arith, insertion_sort,
}
use datagit.Maps.{lookup, put}
use datagit.Maps.Collect.{collect, keys, values}
use datagit.Core.Row as Row
use datagit.Core.Value as Value
use datagit.Core.Change.{sorted, is_delete}
use datagit.Merge.{same_opt}
use datagit.Engine.State.{Engine, root_branch, chain_for, commit_name}
use datagit.Engine.State as EngineState
use datagit.Engine.Resolve.{resolve, resolve_chain, winners}
use datagit.Engine.Commit.{commit}
use datagit.Engine.Commit.Effect.{applied}
use datagit.Engine.Commit.Correct.{commit-IsSane}
use datagit.Engine.Commit.Branching.{new-IsSane}
use datagit.Engine.Publish.Invariant.{IsSane, seq_of}
use datagit.Engine.History.{history}
use datagit.Engine.Diff.{diff}
use datagit.Engine.Diff.Quiet.{table_at}
use datagit.Engine.Diff.Correct.{IsExact, IsWhole, diff-IsExact, diff_agrees}
use datagit.Engine.Diff.Commits.{diff-commit}
use datagit.Engine.Probes.{intervals_sane, open_versions}
use datagit.Engine.Probes.Sane.{once, probes-IsSane}
use datagit.Model.Reads.{diff_tables}
use datagit.Examples.{schema, key, first_changes, first-IsKeyed, main_branch, start, main_found}

abbrev committed : Engine
committed = (commit start root_branch first_changes).0

committed-IsSane : IsSane committed
committed-IsSane =
    commit-IsSane start root_branch main_branch first_changes (new-IsSane schema) main_found
      (omega arith) first-IsKeyed

IsWhole-before : IsWhole (lookup key (table_at committed root_branch 0))
unfolding same_opt lookup resolve_chain chain_for commit EngineState.new put bytes_beq decimal
    commit_name collect winners sorted is_delete insertion_sort values
IsWhole-before = refl

IsWhole-after : IsWhole (lookup key (table_at committed root_branch 1))
unfolding same_opt lookup resolve_chain chain_for commit EngineState.new put bytes_beq decimal
    commit_name collect winners sorted is_delete Row.equal Row.get Row.cols Value.equal keys
    insertion_sort values resolve contains
IsWhole-after = refl

diff-IsExact_example :
    IsExact committed.schema.cols
      (lookup key (table_at committed root_branch 0))
      (lookup key (table_at committed root_branch 1))
      (lookup key (diff committed root_branch 0 1))
diff-IsExact_example =
    diff-IsExact committed root_branch 0 1 key committed-IsSane (omega arith) (omega arith)
      IsWhole-before IsWhole-after

diff_agrees_example :
    lookup key (diff committed root_branch 0 1)
    ≡ lookup key (
        diff_tables committed.schema.cols
          (table_at committed root_branch 0)
          (table_at committed root_branch 1))
diff_agrees_example =
    diff_agrees committed root_branch 0 1 key committed-IsSane (omega arith) (omega arith)
      IsWhole-before

IsWhole-start : IsWhole (lookup key (resolve start root_branch))
unfolding same_opt lookup resolve resolve_chain chain_for EngineState.new put bytes_beq decimal
    commit_name collect winners
IsWhole-start = refl

IsWhole-changed :
    IsWhole (applied (lookup key first_changes) (lookup key (resolve start root_branch)))
unfolding same_opt lookup bytes_beq is_delete Row.equal Row.get Row.cols Value.equal keys
    insertion_sort contains
IsWhole-changed = refl

diff-commit_example :
    IsExact start.schema.cols
      (lookup key (resolve start root_branch))
      (applied (lookup key first_changes) (lookup key (resolve start root_branch)))
      (lookup key (diff committed root_branch 0 1))
diff-commit_example =
    diff-commit start root_branch main_branch first_changes key (new-IsSane schema) main_found
      (omega arith) first-IsKeyed IsWhole-start IsWhole-changed

below_last : seq_of committed.branches root_branch < EngineState.max_seq
unfolding seq_of lookup commit EngineState.new put bytes_beq
below_last = omega arith

probes-IsSane_example :
    (intervals_sane committed ≡ none)
    × (open_versions committed root_branch key ≡ once (history root_branch key committed.rows))
probes-IsSane_example = probes-IsSane committed root_branch key committed-IsSane below_last
