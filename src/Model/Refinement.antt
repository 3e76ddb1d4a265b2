-- ===== src/Model/Refinement.antt =====
-- internal/engine/engine.go against internal/model/model.go: when an engine shows what a repository
-- of snapshots holds.
pub mod Commits
pub mod Branches
pub mod Operations
pub mod Runs
use datagit.Prelude.{
  ℕ, ◌+◌, ◌≡◌, ◌∙◌, refl, ap, sym, Bool, true, false, Option, none, some, List, [], ◌∷◌, Bytes,
  bytes_eq, inl, inr, Option-cases, arith,
}
use datagit.Maps.{Map, lookup}
use datagit.Core.Key.{Pk}
use datagit.Core.Change.{Schema, Table}
use datagit.Engine.State.{CommitMeta, Engine, segment}
use datagit.Engine.State as EngineState
use datagit.Engine.Resolve as EngineResolve
use datagit.Engine.Resolve.{state_at_commit}
use datagit.Engine.Resolve.Winner.{winner}
use datagit.Engine.Commit.Effect.{show, lookup-resolve, lookup-state_at_commit}
use datagit.Engine.Publish.Invariant.{IsSane}
use datagit.Model.State.{Commit, Branch, Repo, resolve, resolve_at}

-- What the model keeps of a branch of the engine.
abbrev pub image : Option EngineState.Branch → Option Branch
image none = none
image (some b) =
    some (record {
      name = b.name;
      head = b.head_commit;
      parent = b.parent;
      fork_commit = b.fork_commit;
    })

-- A commit of the engine and one of the model: the same parents and branch, and the snapshot is what
-- the engine shows.
abbrev pub SameCommit : Engine → Bytes → Option CommitMeta → Option Commit → Type 0
SameCommit e id none none = Unit
SameCommit e id (some cm) (some c) =
    (cm.parents ≡ c.parents)
    × (cm.branch ≡ c.branch)
    × ((j : Pk) → lookup j (state_at_commit e id) ≡ lookup j c.state)
SameCommit e id _ _ = true ≡ false

pub record Simulates (e : Engine) (r : Repo) : Type 0 where
  pub schemas : e.schema ≡ r.schema
  pub ids : e.next_id ≡ r.next_id
  pub branches : (x : Bytes) → lookup x r.branches ≡ image (lookup x e.branches)
  pub commits : (id : Bytes) → SameCommit e id (lookup id e.commits) (lookup id r.commits)

-- The head commit of a branch is known and shows what the branch shows.
pub head_shows :
    (e : Engine) (x : Bytes) (b : EngineState.Branch) (j : Pk)
    → IsSane e
    → lookup x e.branches ≡ some b
    → lookup j (state_at_commit e b.head_commit) ≡ lookup j (EngineResolve.resolve e x)
head_shows e x b j sane found =
    let (cm, known, shows) = sane.heads x b found in
    lookup-state_at_commit e b.head_commit cm j known
    ∙ ap show (sym (shows j))
    ∙ sym (lookup-resolve e x b j found)

-- The commit of the model for a commit of the engine.
pub known_commit :
    (e : Engine) (r : Repo) (id : Bytes) (cm : CommitMeta)
    → Simulates e r
    → lookup id e.commits ≡ some cm
    → (c : Commit) × (lookup id r.commits ≡ some c) × SameCommit e id (some cm) (some c)
known_commit e r id cm sim known =
    let at : SameCommit e id (some cm) (lookup id r.commits) = rw known at (sim.commits id) in
    elim (Option-cases (lookup id r.commits)) [
      | inl absent ↦ let none_here : true ≡ false = rw absent at at in absurd (ground arith)
      | inr (c, found) ↦ (c, found, rw found at at)
    ]
