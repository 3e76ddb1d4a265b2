-- ===== src/Examples/Runs.antt =====
-- The theorems on every sequence of calls for one: a commit, a branch, a session that lands, a merge
-- and an update.
use datagit.Prelude.{
  ◌≡◌, refl, some, decimal, bytes_beq, bytes_eq, [], ◌∷◌, Bytes, codes, arith, List, ◌+◌, ◌<◌, ◌^◌,
  length,
}
use datagit.Maps.{lookup, put}
use datagit.Engine.State.{CommitMeta, root_branch, commit_name, segment, chain_for, new}
use datagit.Engine.Commit.{commit}
use datagit.Engine.Recorded.Forever.{commit_forever}
use datagit.Engine.Probes.{staged_on_branch, zero_hash_on_branch}
use datagit.Engine.Passes.{AllRows}
use datagit.Engine.Passes.Calls.{
  Call, to_commit, to_branch, to_merge, to_update, to_open, to_write, to_land, perform_all,
}
use datagit.Engine.Passes.Widths.{IsNarrow, perform_all-IsNarrow}
use datagit.Engine.Passes.Root.{perform_all-probes}
use datagit.Examples.{schema, dev, first_changes, second_changes}

abbrev session : Bytes
session = codes "s1"

abbrev calls : List Call
calls =
    to_commit root_branch first_changes
    ∷ to_branch dev root_branch
    ∷ to_open dev
    ∷ to_write session second_changes
    ∷ to_land session
    ∷ to_merge dev root_branch
    ∷ to_update dev
    ∷ []

perform_all-IsNarrow_example : AllRows (IsNarrow 1) (perform_all calls (new schema)).rows
perform_all-IsNarrow_example = perform_all-IsNarrow 1 schema calls (omega arith, (omega arith, tt))

perform_all-probes_example :
    (staged_on_branch (perform_all calls (new schema)) root_branch ≡ 0)
    × (zero_hash_on_branch (perform_all calls (new schema)) dev ≡ 0)
perform_all-probes_example = perform_all-probes schema calls dev

abbrev second : CommitMeta
second = record {
  id = commit_name 2;
  parents = commit_name 1 ∷ [];
  branch = root_branch;
  seq = 1;
  chain = segment root_branch 1 ∷ [];
}

abbrev first_call : List Call
first_call = to_commit root_branch first_changes ∷ []

second_recorded : lookup (commit_name 2) (perform_all first_call (new schema)).commits ≡ some second
unfolding perform_all commit lookup put bytes_beq decimal commit_name chain_for new
second_recorded = refl

few_calls : length first_call + length calls + 1 < 2 ^ 63
few_calls = omega arith

commit_forever_example :
    (lookup (commit_name 2) (perform_all calls (perform_all first_call (new schema))).commits
      ≡ some second)
    × ((perform_all calls (perform_all first_call (new schema))).next_id < 2 ^ 63)
commit_forever_example =
    commit_forever schema first_call calls (commit_name 2) second few_calls second_recorded
