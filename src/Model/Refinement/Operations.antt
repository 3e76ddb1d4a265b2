-- ===== src/Model/Refinement/Operations.antt =====
-- Reads, `Commit` and `CreateBranch` of internal/engine/engine.go and internal/model/model.go on
-- states that agree.
use datagit.Prelude.{
  ◌+◌, ◌<◌, ◌≡◌, refl, true, false, none, Bytes, bytes_eq, inl, inr, Option-cases, arith,
}
use datagit.Maps.{lookup}
use datagit.Core.Key.{Pk}
use datagit.Core.Change.{ChangeSet}
use datagit.Core.Change.Sorted.{IsKeyed}
use datagit.Engine.State.{Engine, max_seq, root_branch, commit_name}
use datagit.Engine.State as EngineState
use datagit.Engine.Resolve as EngineResolve
use datagit.Engine.Resolve.{state_at_commit}
use datagit.Engine.Commit as EngineCommit
use datagit.Engine.Publish.Invariant.{IsSane}
use datagit.Model.State.{Repo, resolve, resolve_at}
use datagit.Model.Commit.{commit, create_branch}
use datagit.Model.Refinement.{SameCommit, Simulates, known_commit}
use datagit.Model.Refinement.Commits.{commit_found, commit_missing, resolve_found}
use datagit.Model.Refinement.Branches.{branch_found, branch_taken, branch_orphan}

-- Where a sane engine simulates a repository, the two resolve every branch to the same rows.
pub resolve-Simulates :
    (e : Engine) (r : Repo) (x : Bytes) (j : Pk)
    → IsSane e
    → Simulates e r
    → lookup j (resolve r x) ≡ lookup j (EngineResolve.resolve e x)
unfolding resolve EngineResolve.resolve
resolve-Simulates e r x j sane sim = elim (Option-cases (lookup x e.branches)) [
  | inl absent ↦ rw (sim.branches x, resolve) (rw (absent, EngineResolve.resolve) refl)
  | inr (b, found) ↦ resolve_found e r x b j sane sim found
]

-- Where an engine simulates a repository, each commit's snapshot holds the rows that the engine shows
-- at it.
pub snapshot-Simulates :
    (e : Engine) (r : Repo) (id : Bytes) (j : Pk)
    → Simulates e r
    → lookup j (state_at_commit e id) ≡ lookup j (resolve_at r id)
unfolding state_at_commit resolve_at
snapshot-Simulates e r id j sim = elim (Option-cases (lookup id e.commits)) [
  | inr (cm, known) ↦
      let (c, held, same) = known_commit e r id cm sim known in rw (held, resolve_at) (same.2 j)
  | inl absent ↦
      let at : SameCommit e id none (lookup id r.commits) = rw absent at (sim.commits id) in
      elim (Option-cases (lookup id r.commits)) [
        | inl missing ↦ rw (absent, state_at_commit) (rw (missing, resolve_at) refl)
        | inr (c, held) ↦ let none_here : true ≡ false = rw held at at in absurd (ground arith)
      ]
]

-- `Commit` on a sane engine and the repository that it simulates, below the last seq and for a change
-- set that names each key once, returns the same id or the same error, and keeps the simulation.
pub commit-Simulates :
    (e : Engine) (r : Repo) (branch : Bytes) (cs : ChangeSet)
    → IsSane e
    → Simulates e r
    → EngineState.head_seq e branch + 1 < max_seq
    → IsKeyed cs
    → Simulates (EngineCommit.commit e branch cs).0 (commit r branch cs).0
      × ((EngineCommit.commit e branch cs).1 ≡ (commit r branch cs).1)
commit-Simulates e r branch cs sane sim fits keyed =
    elim (Option-cases (lookup branch e.branches)) [
      | inl absent ↦ commit_missing e r branch cs sim absent
      | inr (b, found) ↦
          commit_found e r branch b cs sane sim found
            (unfold EngineState.head_seq in rw (found, EngineState.head_seq) at fits) keyed
    ]

-- `CreateBranch` on a sane engine and the repository that it simulates succeeds or fails alike, and
-- keeps the simulation.
pub create_branch-Simulates :
    (e : Engine) (r : Repo) (name from : Bytes)
    → IsSane e
    → Simulates e r
    → Simulates (EngineCommit.create_branch e name from).0 (create_branch r name from).0
      × ((EngineCommit.create_branch e name from).1 ≡ (create_branch r name from).1)
create_branch-Simulates e r name from sane sim = elim (Option-cases (lookup name e.branches)) [
  | inl free ↦ elim (Option-cases (lookup from e.branches)) [
    | inl orphan ↦ branch_orphan e r name from sim free orphan
    | inr (p, found) ↦ branch_found e r name from p sane sim free found
  ]
  | inr (q, taken) ↦ branch_taken e r name from q sim taken
]
