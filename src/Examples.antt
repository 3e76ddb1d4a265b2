-- ===== src/Examples.antt =====
-- What the examples share: one table with a key column and a value column, two change sets and the
-- engine that `New` gives.
pub mod Histories
pub mod Encodings
pub mod Merges
pub mod Landings
pub mod Stagings
pub mod Schemas
pub mod Statements
pub mod Digests
pub mod Diffs
pub mod Runs
use datagit.Prelude.{
  ℕ, ◌+◌, ◌<◌, ◌^◌, ◌≡◌, ◌↔◌, refl, Bool, true, false, not, ◌&&◌, ◌||◌, Option, none, some, List,
  [], ◌∷◌, ◌++◌, Bytes, codes, bytes_eq, nat_eq, nat_beq, bytes_beq, contains, length, arith,
  if◌then◌else◌, ok, or_else, eq_self,
}
use datagit.Maps.{Map, lookup, put, IsMap, lookup-nil}
use datagit.Maps.Collect.{bind}
use datagit.Core.Value.{Value, null, int, text, float, bool, equal, is_nan}
use datagit.Core.Value.Laws as ValueLaws
use datagit.Core.Encoding.{encode, decode_value}
use datagit.Core.Encoding.RoundTrip.{InRange, IsNan, normal, decode-encode, encode_eq_iff}
use datagit.Core.Mask.{ColId, ColMask, has, set, union, union_cols}
use datagit.Core.Mask as Mask
use datagit.Core.Mask.Laws.{has-set, has-union, contains-cols, contains-union_cols}
use datagit.Core.Row.{Row, get, mask_of, is_nil}
use datagit.Core.Row as Row
use datagit.Core.Row.Laws as RowLaws
use datagit.Core.Key.{Pk, make_pk, decode_pk}
use datagit.Core.Key.RoundTrip.{IsKey, SameKey, parts, decode_pk-make_pk, make_pk_eq_iff}
use datagit.Core.Change.{Op, insert, update, delete, Change, ChangeSet, Schema, Table, sorted}
use datagit.Core.Change.Sorted.{find_change, IsKeyed, find-sorted}
use datagit.Merge.Cells.{merge_states, merge_tables}
use datagit.Merge.Columns.{SameMerge, Covers}
use datagit.Merge.Tables.{CoverChanges, merge_states-agree}
use datagit.Engine.State.{
  Version, Segment, Engine, CommitMeta, root_branch, segment, max_seq, commit_name,
}
use datagit.Engine.State as EngineState
use datagit.Engine.Resolve.{resolve, resolve_chain, resolve_filtered, state_at_commit, live}
use datagit.Engine.Resolve.Winner.{winner, session_winner, lookup-resolve_chain}
use datagit.Engine.Resolve.Filtered.{lookup-resolve_filtered}
use datagit.Engine.Commit.{commit, create_branch}
use datagit.Engine.Commit.Effect.{applied}
use datagit.Engine.Commit.Correct.{commit-IsSane, resolve-commit, commit_isolated}
use datagit.Engine.Commit.Branching.{create_branch-IsSane, resolve-create_branch, new-IsSane}
use datagit.Engine.Publish.Invariant.{IsSane}
use datagit.Model.State.{Repo, new}
use datagit.Model.State as ModelState
use datagit.Model.Commit as ModelCommit
use datagit.Model.Refinement.{Simulates}
use datagit.Model.Refinement.Branches.{new-Simulates}
use datagit.Model.Refinement.Operations.{
  resolve-Simulates, snapshot-Simulates, commit-Simulates, create_branch-Simulates,
}
use datagit.Model.Refinement.Runs.{
  Operation, commit_to, branch_from, run_engine, run_model, AllKeyed, run_agrees,
}

abbrev pub schema : Schema
schema = record { cols = 1 ∷ 2 ∷ []; pk_cols = 1 ∷ [] }

abbrev pub dev : Bytes
dev = codes "dev"

abbrev pub row_of : ℕ → ℕ → Row
row_of a b = some ((1, int a) ∷ (2, int b) ∷ [])

abbrev pub key : Pk
key = codes "k7"

abbrev pub first_changes : ChangeSet
first_changes = (key, record { pk = key; op = insert; row = row_of 7 1; changed = [] }) ∷ []

abbrev pub second_changes : ChangeSet
second_changes = (key, record { pk = key; op = delete; row = none; changed = [] }) ∷ []

pub first-IsKeyed : IsKeyed first_changes
first-IsKeyed = ((refl, tt), (lookup-nil key, tt))

pub second-IsKeyed : IsKeyed second_changes
second-IsKeyed = ((refl, tt), (lookup-nil key, tt))

abbrev pub main_branch : EngineState.Branch
main_branch = record {
  name = root_branch;
  head_seq = 0;
  head_commit = commit_name 1;
  parent = [];
  fork_seq = 0;
  fork_commit = [];
  chain = [];
}

abbrev pub start : Engine
start = EngineState.new schema

pub main_found : lookup root_branch start.branches ≡ some main_branch
unfolding EngineState.new lookup put bytes_beq
main_found = refl

pub dev_free : lookup dev start.branches ≡ none
unfolding EngineState.new lookup put bytes_beq
dev_free = refl
