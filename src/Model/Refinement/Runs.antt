-- ===== src/Model/Refinement/Runs.antt =====
-- Sequences of operations on internal/engine/engine.go and internal/model/model.go, as the
-- differential harness runs them.
use datagit.Prelude.{
  ℕ, ◌+◌, ◌<◌, ◌≤◌, ◌≡◌, refl, sym, none, some, List, [], ◌∷◌, Bytes, bytes_eq, inl, inr,
  Option-cases, arith, length, err, no_branch,
}
use datagit.Maps.{lookup, put, lookup-put}
use datagit.Core.Key.{Pk}
use datagit.Core.Change.{Schema, ChangeSet}
use datagit.Core.Change.Sorted.{IsKeyed}
use datagit.Engine.State.{Engine, max_seq, root_branch, commit_name}
use datagit.Engine.State as EngineState
use datagit.Engine.Resolve as EngineResolve
use datagit.Engine.Resolve.{state_at_commit}
use datagit.Engine.Commit as EngineCommit
use datagit.Engine.Commit.Correct.{commit-IsSane, lookup-commit_branches, commit_counters}
use datagit.Engine.Commit.Branching.{create_branch-IsSane, create_branch-after, new-IsSane, fork}
use datagit.Engine.Publish.Invariant.{IsSane}
use datagit.Model.State.{Repo, resolve, resolve_at, new}
use datagit.Model.Commit.{commit, create_branch}
use datagit.Model.Refinement.{Simulates}
use datagit.Model.Refinement.Operations.{
  resolve-Simulates, snapshot-Simulates, commit-Simulates, create_branch-Simulates,
}
use datagit.Model.Refinement.Branches.{new-Simulates}

-- One call of a client.
pub data Operation : Type 0 where
  commit_to : Bytes → ChangeSet → Operation
  branch_from : Bytes → Bytes → Operation

unfoldable pub step_engine : Operation → Engine → Engine
step_engine (commit_to branch cs) e = (EngineCommit.commit e branch cs).0
step_engine (branch_from name from) e = (EngineCommit.create_branch e name from).0

unfoldable pub step_model : Operation → Repo → Repo
step_model (commit_to branch cs) r = (commit r branch cs).0
step_model (branch_from name from) r = (create_branch r name from).0

unfoldable pub run_engine : List Operation → Engine → Engine
unfolding step_engine
run_engine [] e = e
run_engine (op ∷ ops) e = run_engine ops (step_engine op e)

unfoldable pub run_model : List Operation → Repo → Repo
unfolding step_model
run_model [] r = r
run_model (op ∷ ops) r = run_model ops (step_model op r)

-- Every change set of the sequence stands under its own keys.
abbrev pub AllKeyed : List Operation → Type 0
AllKeyed [] = Unit
AllKeyed (commit_to branch cs ∷ ops) = IsKeyed cs × AllKeyed ops
AllKeyed (branch_from name from ∷ ops) = AllKeyed ops

-- No head is past the number of commits, so that a short run cannot reach `MaxSeq`.
abbrev IsShort : Engine → Type 0
IsShort e = (x : Bytes) → EngineState.head_seq e x < e.next_id

record IsPair (e : Engine) (r : Repo) : Type 0 where
  sane : IsSane e
  same : Simulates e r
  short : IsShort e

-- At most one commit more.
abbrev IsStep : Engine → Engine → Type 0
IsStep e e' = (e.next_id ≤ e'.next_id) × (e'.next_id ≤ e.next_id + 1)

commit_absent :
    (e : Engine) (branch : Bytes) (cs : ChangeSet)
    → lookup branch e.branches ≡ none
    → EngineCommit.commit e branch cs ≡ (e, err no_branch)
unfolding EngineCommit.commit
commit_absent e branch cs absent = rw (absent, EngineCommit.commit) refl

create_branch_taken :
    (e : Engine) (name from : Bytes) (q : EngineState.Branch)
    → lookup name e.branches ≡ some q
    → (EngineCommit.create_branch e name from).0 ≡ e
unfolding EngineCommit.create_branch
create_branch_taken e name from q taken = rw (taken, EngineCommit.create_branch) refl

create_branch_orphan :
    (e : Engine) (name from : Bytes)
    → lookup name e.branches ≡ none
    → lookup from e.branches ≡ none
    → (EngineCommit.create_branch e name from).0 ≡ e
unfolding EngineCommit.create_branch
create_branch_orphan e name from free orphan =
    rw (free, EngineCommit.create_branch) (rw orphan refl)

head_seq-found :
    (e : Engine) (x : Bytes) (b : EngineState.Branch)
    → lookup x e.branches ≡ some b
    → EngineState.head_seq e x ≡ b.head_seq
unfolding EngineState.head_seq
head_seq-found e x b h = rw (h, EngineState.head_seq) refl

module _ (e : Engine) (r : Repo) (pair : IsPair e r) where
  IsShort-after :
      (branch : Bytes) (b : EngineState.Branch) (cs : ChangeSet)
      → lookup branch e.branches ≡ some b
      → b.head_seq + 1 < max_seq
      → IsKeyed cs
      → IsShort (EngineCommit.commit e branch cs).0
  unfolding EngineState.head_seq
  IsShort-after branch b cs found fits keyed x = ground (
    arith,
    lookup-commit_branches e branch b cs pair.sane found fits keyed x,
    commit_counters e branch b cs pair.sane found fits keyed,
    pair.short x,
    pair.short branch,
    head_seq-found e branch b found,
  )

  commit-IsPair :
      (branch : Bytes) (cs : ChangeSet)
      → e.next_id < max_seq
      → IsKeyed cs
      → IsPair (EngineCommit.commit e branch cs).0 (commit r branch cs).0
        × IsStep e (EngineCommit.commit e branch cs).0
  commit-IsPair branch cs fits keyed =
      let same =
        (commit-Simulates e r branch cs pair.sane pair.same (omega (arith, pair.short branch))
          keyed).0 in
      elim (Option-cases (lookup branch e.branches)) [
        | inl absent ↦
            let stays = commit_absent e branch cs absent in
            (
              record { sane = rw stays pair.sane; same = same; short = rw stays pair.short },
              rw stays (omega arith, omega arith),
            )
        | inr (b, found) ↦
            let room : b.head_seq + 1 < max_seq =
              omega (arith, pair.short branch, head_seq-found e branch b found) in
            let counters = commit_counters e branch b cs pair.sane found room keyed in
            (
              record {
                sane = commit-IsSane e branch b cs pair.sane found room keyed;
                same = same;
                short = IsShort-after branch b cs found room keyed;
              },
              (omega (arith, counters.1), omega (arith, counters.1)),
            )
      ]

  stays-IsPair :
      (name from : Bytes)
      → (EngineCommit.create_branch e name from).0 ≡ e
      → IsPair (EngineCommit.create_branch e name from).0 (create_branch r name from).0
        × IsStep e (EngineCommit.create_branch e name from).0
  stays-IsPair name from stays =
      let same = (create_branch-Simulates e r name from pair.sane pair.same).0 in
      (
        record { sane = rw stays pair.sane; same = same; short = rw stays pair.short },
        rw stays (omega arith, omega arith),
      )

  short_fork :
      (name from x : Bytes) (p : EngineState.Branch) (free : lookup name e.branches ≡ none)
      (found : lookup from e.branches ≡ some p)
      → EngineState.head_seq
          (record e { branches = put name (fork e name from p pair.sane free found) e.branches })
          x
        < e.next_id
  unfolding EngineState.head_seq
  short_fork name from x p free found =
      ground (
        arith,
        lookup-put x name (fork e name from p pair.sane free found) e.branches,
        pair.short x,
      )

  create_branch-IsPair :
      (name from : Bytes)
      → IsPair (EngineCommit.create_branch e name from).0 (create_branch r name from).0
        × IsStep e (EngineCommit.create_branch e name from).0
  create_branch-IsPair name from = elim (Option-cases (lookup name e.branches)) [
    | inr (q, taken) ↦ stays-IsPair name from (create_branch_taken e name from q taken)
    | inl free ↦ elim (Option-cases (lookup from e.branches)) [
      | inl orphan ↦ stays-IsPair name from (create_branch_orphan e name from free orphan)
      | inr (p, found) ↦
          let done = create_branch-after e name from p pair.sane free found in
          (
            record {
              sane = create_branch-IsSane e name from p pair.sane free found;
              same = (create_branch-Simulates e r name from pair.sane pair.same).0;
              short = rw done (λ x. short_fork name from x p free found);
            },
            rw done (omega arith, omega arith),
          )
    ]
  ]

run-IsPair :
    (e : Engine) (r : Repo) (ops : List Operation)
    → IsPair e r
    → e.next_id + length ops < max_seq
    → AllKeyed ops
    → IsPair (run_engine ops e) (run_model ops r)
unfolding run_engine run_model
run-IsPair e r [] pair fits keyed = pair
run-IsPair e r (commit_to branch cs ∷ ops) pair fits keyed =
    let (after, step) = commit-IsPair e r pair branch cs (omega arith) keyed.0 in
    run-IsPair (EngineCommit.commit e branch cs).0 (commit r branch cs).0 ops after
      (omega (arith, step.1)) keyed.1
run-IsPair e r (branch_from name from ∷ ops) pair fits keyed =
    let (after, step) = create_branch-IsPair e r pair name from in
    run-IsPair (EngineCommit.create_branch e name from).0 (create_branch r name from).0 ops after
      (omega (arith, step.1)) keyed

new-IsShort : (schema : Schema) → IsShort (EngineState.new schema)
unfolding EngineState.new EngineState.head_seq lookup put
new-IsShort schema x = ground arith

new_room :
    (schema : Schema) (n : ℕ) → n + 1 < max_seq → (EngineState.new schema).next_id + n < max_seq
unfolding EngineState.new
new_room schema n h = omega arith

-- After any sequence of commits and branch creations from `New`, of fewer than 2 ^ 63 - 2 calls, the
-- engine and the model show the same row, or none, for each key, on each branch and at each commit.
pub run_agrees :
    (schema : Schema) (ops : List Operation) (j : Pk)
    → length ops + 1 < max_seq
    → AllKeyed ops
    → ((x : Bytes)
        → lookup j (EngineResolve.resolve (run_engine ops (EngineState.new schema)) x)
          ≡ lookup j (resolve (run_model ops (new schema)) x))
      × ((id : Bytes)
          → lookup j (state_at_commit (run_engine ops (EngineState.new schema)) id)
            ≡ lookup j (resolve_at (run_model ops (new schema)) id))
run_agrees schema ops j fits keyed =
    let start : IsPair (EngineState.new schema) (new schema) = record {
      sane = new-IsSane schema;
      same = new-Simulates schema;
      short = new-IsShort schema;
    } in
    let pair =
      run-IsPair (EngineState.new schema) (new schema) ops start (new_room schema (length ops) fits)
        keyed in
    (
      (λ x. sym (resolve-Simulates _ _ x j pair.sane pair.same)),
      (λ id. snapshot-Simulates _ _ id j pair.same),
    )
