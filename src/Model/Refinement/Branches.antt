-- ===== src/Model/Refinement/Branches.antt =====
-- `New` and `CreateBranch` of internal/engine/engine.go do what those of internal/model/model.go do.
use datagit.Prelude.{
  ◌≡◌, ◌∙◌, refl, ap, sym, true, none, some, [], ◌∷◌, Bytes, bytes_beq, bytes_eq, inl, inr,
  Bool-cases,
}
use datagit.Maps.{lookup, lookup-put, lookup-nil}
use datagit.Core.Row.{Row}
use datagit.Core.Key.{Pk}
use datagit.Core.Change.{Schema}
use datagit.Engine.State.{CommitMeta, Engine, segment, commit_name, root_branch}
use datagit.Engine.State as EngineState
use datagit.Engine.Resolve.{state_at_commit}
use datagit.Engine.Resolve.Winner.{first, winner}
use datagit.Engine.Commit as EngineCommit
use datagit.Engine.Commit.Effect.{lookup-state_at_commit}
use datagit.Engine.Commit.Branching.{create_branch-after, fork}
use datagit.Engine.Publish.Invariant.{IsSane}
use datagit.Model.State.{Commit, Branch, Repo, new}
use datagit.Model.Commit.{create_branch}
use datagit.Model.Refinement.{image, Simulates}

pub branch_found :
    (e : Engine) (r : Repo) (name from : Bytes) (p : EngineState.Branch)
    → IsSane e
    → Simulates e r
    → lookup name e.branches ≡ none
    → lookup from e.branches ≡ some p
    → Simulates (EngineCommit.create_branch e name from).0 (create_branch r name from).0
      × ((EngineCommit.create_branch e name from).1 ≡ (create_branch r name from).1)
unfolding create_branch state_at_commit
branch_found e r name from p sane sim free found =
    rw (create_branch-after e name from p sane free found) (
      rw (sim.branches name, create_branch)
        (rw free (
          rw (sim.branches from) (
            rw found (
              record {
                schemas = sim.schemas;
                ids = sim.ids;
                branches = λ x.
                    lookup-put x name _ r.branches
                    ∙ sym (
                        ap image (lookup-put x name (fork e name from p sane free found) e.branches)
                        ∙ elim (Bool-cases (bytes_beq name x)) [
                          | inl here ↦ rw here refl
                          | inr there ↦ rw there (sym (sim.branches x))
                        ]);
                commits = λ id. sim.commits id;
              },
              refl,
            )))))

pub branch_taken :
    (e : Engine) (r : Repo) (name from : Bytes) (q : EngineState.Branch)
    → Simulates e r
    → lookup name e.branches ≡ some q
    → Simulates (EngineCommit.create_branch e name from).0 (create_branch r name from).0
      × ((EngineCommit.create_branch e name from).1 ≡ (create_branch r name from).1)
unfolding EngineCommit.create_branch create_branch
branch_taken e r name from q sim taken =
    rw (taken, EngineCommit.create_branch)
      (rw (sim.branches name, create_branch) (rw taken (sim, refl)))

pub branch_orphan :
    (e : Engine) (r : Repo) (name from : Bytes)
    → Simulates e r
    → lookup name e.branches ≡ none
    → lookup from e.branches ≡ none
    → Simulates (EngineCommit.create_branch e name from).0 (create_branch r name from).0
      × ((EngineCommit.create_branch e name from).1 ≡ (create_branch r name from).1)
unfolding EngineCommit.create_branch create_branch
branch_orphan e r name from sim free orphan =
    rw (free, EngineCommit.create_branch)
      (rw orphan (
        rw (sim.branches name, create_branch)
          (rw free (rw (sim.branches from) (rw orphan (sim, refl))))))

abbrev root_meta : CommitMeta
root_meta = record {
  id = commit_name 1;
  parents = [];
  branch = root_branch;
  seq = 0;
  chain = segment root_branch 0 ∷ [];
}

-- The root commit shows no row.
root_shown :
    (schema : Schema) (id : Bytes) (j : Pk)
    → bytes_beq (commit_name 1) id ≡ true
    → lookup j (state_at_commit (EngineState.new schema) id) ≡ none
unfolding EngineState.new winner first
root_shown schema id j here =
    lookup-state_at_commit (EngineState.new schema) id root_meta j
      (lookup-put id (commit_name 1) root_meta [] ∙ rw here refl)

-- The two `New` start alike.
pub new-Simulates : (schema : Schema) → Simulates (EngineState.new schema) (new schema)
unfolding EngineState.new new
new-Simulates schema = record {
  schemas = refl;
  ids = refl;
  branches = λ x.
      lookup-put x root_branch _ []
      ∙ sym (
          ap image (lookup-put x root_branch _ []) ∙ elim (Bool-cases (bytes_beq root_branch x)) [
            | inl here ↦ rw here refl
            | inr there ↦
                rw (there, lookup-nil {V = EngineState.Branch} x, lookup-nil {V = Branch} x) refl
          ]);
  commits = λ id.
      rw
        (
          lookup-put {V = CommitMeta} id (commit_name 1) _ [],
          lookup-put {V = Commit} id (commit_name 1) _ [],
        )
        (elim (Bool-cases (bytes_beq (commit_name 1) id)) [
          | inl here ↦
              rw here (refl, refl, λ j. root_shown schema id j here ∙ sym (lookup-nil {V = Row} j))
          | inr there ↦ rw (there, lookup-nil {V = CommitMeta} id, lookup-nil {V = Commit} id) tt
        ]);
}
