-- ===== src/Model/Refinement/Commits.antt =====
-- `New`, `Commit` and `CreateBranch` of internal/engine/engine.go do what those of
-- internal/model/model.go do.
use datagit.Prelude.{
  ℕ, ◌+◌, ◌<◌, ◌≡◌, ◌∙◌, refl, ap, sym, subst, Option, none, some, List, [], ◌∷◌, Bytes, bytes_beq,
  bytes_beq_iff, bytes_eq, inl, inr, Option-cases, Bool-cases, arith, if◌then◌else◌, eq_self, ok,
}
use datagit.Maps.{lookup, put, remove, lookup-put, lookup-remove}
use datagit.Core.Key.{Pk}
use datagit.Core.Change.{Table, Change, ChangeSet, is_delete, sorted}
use datagit.Core.Change.Sorted.{find_change, IsDistinct, IsKeyed, sorted-IsDistinct, find-sorted}
use datagit.Engine.State.{CommitMeta, Engine, segment, commit_name, max_seq}
use datagit.Engine.State as EngineState
use datagit.Engine.Resolve as EngineResolve
use datagit.Engine.Resolve.{state_at_commit}
use datagit.Engine.Commit as EngineCommit
use datagit.Engine.Commit.Effect.{applied}
use datagit.Engine.Commit.Correct.{
  commit-IsSane, resolve-commit, commit_isolated, lookup-commit_branches, lookup-commit_commits,
  commit_counters,
}
use datagit.Engine.Publish.Invariant.{IsSane}
use datagit.Model.State.{Commit, Branch, Repo, resolve, resolve_at}
use datagit.Model.Commit.{apply_changes, apply, publish, commit}
use datagit.Model.Refinement.{image, SameCommit, Simulates, head_shows, known_commit}

lookup-apply_changes :
    (chs : List Change) (t : Table) (j : Pk)
    → IsDistinct chs
    → lookup j (apply_changes chs t) ≡ applied (find_change j chs) (lookup j t)
unfolding apply_changes find_change
lookup-apply_changes [] t j d = refl
lookup-apply_changes (ch ∷ chs) t j d =
    lookup-apply_changes chs (if is_delete ch.op then remove ch.pk t else put ch.pk ch.row t) j d.1
    ∙ ground
        (arith, bytes_beq_iff ch.pk j, lookup-put j ch.pk ch.row t, lookup-remove j ch.pk t, d.0)

-- The snapshot after a change set holds what the change set leaves of each key.
lookup-apply :
    (t : Table) (cs : ChangeSet) (j : Pk)
    → IsKeyed cs
    → lookup j (apply t cs) ≡ applied (lookup j cs) (lookup j t)
unfolding apply
lookup-apply t cs j keyed =
    lookup-apply_changes (sorted cs) t j (sorted-IsDistinct cs keyed)
    ∙ ap (λ (o : Option Change). applied o (lookup j t)) (find-sorted j cs keyed)

pub resolve_found :
    (e : Engine) (r : Repo) (x : Bytes) (b : EngineState.Branch) (j : Pk)
    → IsSane e
    → Simulates e r
    → lookup x e.branches ≡ some b
    → lookup j (resolve r x) ≡ lookup j (EngineResolve.resolve e x)
unfolding resolve resolve_at
resolve_found e r x b j sane sim found =
    let (cm, known, shows) = sane.heads x b found in
    let (c, held, same) = known_commit e r b.head_commit cm sim known in
    rw (sim.branches x, resolve)
      (rw found (rw (held, resolve_at) (sym (same.2 j) ∙ head_shows e x b j sane found)))

module _ (e : Engine) (r : Repo) (branch : Bytes) (b : EngineState.Branch) (cs : ChangeSet)
    (sane : IsSane e) (sim : Simulates e r) (found : lookup branch e.branches ≡ some b)
    (fits : b.head_seq + 1 < max_seq) (keyed : IsKeyed cs) where
  abbrev twin : Branch
  twin = record {
    name = b.name;
    head = b.head_commit;
    parent = b.parent;
    fork_commit = b.fork_commit;
  }

  twin_found : lookup branch r.branches ≡ some twin
  twin_found = sim.branches branch ∙ ap image found

  abbrev next : Engine
  next = (EngineCommit.commit e branch cs).0

  parent_known :
      (c : Commit) × (lookup b.head_commit r.commits ≡ some c)
      × ((j : Pk) → lookup j c.state ≡ lookup j (EngineResolve.resolve e branch))
  parent_known =
      let (cm, known, shows) = sane.heads branch b found in
      let (c, held, same) = known_commit e r b.head_commit cm sim known in
      (c, held, λ j. sym (same.2 j) ∙ head_shows e branch b j sane found)

  abbrev parent : Commit
  parent = parent_known.0

  abbrev new_repo : Repo
  new_repo = publish r branch twin (b.head_commit ∷ []) (parent.seq + 1) (apply parent.state cs)

  commit-new_repo : commit r branch cs ≡ (new_repo, ok (commit_name (r.next_id + 1)))
  unfolding commit
  commit-new_repo = rw (twin_found, commit) (rw (parent_known.1) refl)

  lookup-new_commits :
      (id : Bytes)
      → lookup id new_repo.commits ≡ (
          if bytes_beq (commit_name (e.next_id + 1)) id
          then some (record {
            id = commit_name (e.next_id + 1);
            parents = b.head_commit ∷ [];
            branch = branch;
            seq = parent.seq + 1;
            state = apply parent.state cs;
          })
          else lookup id r.commits)
  unfolding publish
  lookup-new_commits id = rw sim.ids (lookup-put id _ _ r.commits)

  lookup-new_branches :
      (x : Bytes)
      → lookup x new_repo.branches ≡ (
          if bytes_beq branch x
          then some (record twin { head = commit_name (e.next_id + 1) })
          else lookup x r.branches)
  unfolding publish
  lookup-new_branches x = rw sim.ids (lookup-put x _ _ r.branches)

  new_counters : (new_repo.next_id ≡ r.next_id + 1) × (new_repo.schema ≡ r.schema)
  unfolding publish
  new_counters = (refl, refl)

  -- The engine shows the new commit as the model's snapshot.
  new_shown :
      (j : Pk)
      → lookup j (state_at_commit next (commit_name (e.next_id + 1)))
        ≡ lookup j (apply parent.state cs)
  new_shown j =
      head_shows next branch
        (record b { head_seq = b.head_seq + 1; head_commit = commit_name (e.next_id + 1) }) j
        (commit-IsSane e branch b cs sane found fits keyed)
        (lookup-commit_branches e branch b cs sane found fits keyed branch ∙ rw (eq_self branch))
      ∙ resolve-commit e branch b cs sane found fits keyed j
      ∙ ap (applied (lookup j cs)) (sym (parent_known.2 j))
      ∙ sym (lookup-apply parent.state cs j keyed)

  commits_after :
      (id : Bytes) → SameCommit next id (lookup id next.commits) (lookup id new_repo.commits)
  commits_after id = elim (Bool-cases (bytes_beq (commit_name (e.next_id + 1)) id)) [
    | inl new ↦
        let same : commit_name (e.next_id + 1) ≡ id =
          (bytes_beq_iff (commit_name (e.next_id + 1)) id).0 new in
        rw
          (lookup-commit_commits e branch b cs sane found fits keyed id, lookup-new_commits id, new)
          (
            refl,
            refl,
            subst
                (λ (i : Bytes).
                  (j : Pk) → lookup j (state_at_commit next i) ≡ lookup j (apply parent.state cs))
                same new_shown,
          )
    | inr old ↦
        rw
          (lookup-commit_commits e branch b cs sane found fits keyed id, lookup-new_commits id, old)
          (kept id)
  ]
    where
      kept : (id : Bytes) → SameCommit next id (lookup id e.commits) (lookup id r.commits)
      kept id = elim (Option-cases (lookup id e.commits)) [
        | inl absent ↦ rw absent (rw absent at (sim.commits id))
        | inr (cm, known) ↦
            let (c, held, same) = known_commit e r id cm sim known in
            rw (known, held)
              (
                same.0,
                same.1,
                λ j.
                    (commit_isolated e branch b cs sane found fits keyed j).1 id cm known
                    ∙ same.2 j,
              )
      ]

  branches_after : (x : Bytes) → lookup x new_repo.branches ≡ image (lookup x next.branches)
  branches_after x =
      lookup-new_branches x
      ∙ sym (
          ap image (lookup-commit_branches e branch b cs sane found fits keyed x)
          ∙ elim (Bool-cases (bytes_beq branch x)) [
            | inl here ↦ rw here refl
            | inr there ↦ rw there (sym (sim.branches x))
          ])

  pub commit_found :
      Simulates next (commit r branch cs).0
      × ((EngineCommit.commit e branch cs).1 ≡ (commit r branch cs).1)
  commit_found =
      let counters = commit_counters e branch b cs sane found fits keyed in
      rw commit-new_repo (
        record {
          schemas = counters.2 ∙ sim.schemas ∙ sym new_counters.1;
          ids = counters.1 ∙ ap (λ (n : ℕ). n + 1) sim.ids ∙ sym new_counters.0;
          branches = branches_after;
          commits = commits_after;
        },
        counters.0 ∙ ap (λ (n : ℕ). ok (commit_name (n + 1))) sim.ids,
      )

pub commit_missing :
    (e : Engine) (r : Repo) (branch : Bytes) (cs : ChangeSet)
    → Simulates e r
    → lookup branch e.branches ≡ none
    → Simulates (EngineCommit.commit e branch cs).0 (commit r branch cs).0
      × ((EngineCommit.commit e branch cs).1 ≡ (commit r branch cs).1)
unfolding EngineCommit.commit commit
commit_missing e r branch cs sim absent =
    rw (absent, EngineCommit.commit) (rw (sim.branches branch, commit) (rw absent (sim, refl)))
