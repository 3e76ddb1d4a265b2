-- ===== src/Engine/Commit/Branching.antt =====
-- `New` and `CreateBranch` of internal/engine/engine.go: a new branch shows what its parent shows.
use datagit.Prelude.{
  ◌≡◌, ◌∙◌, refl, ap, sym, subst, none, some, List, [], ◌∷◌, Bytes, bytes_beq, bytes_beq_iff,
  bytes_eq, if◌then◌else◌, arith, Bool-cases, inl, inr, ok, eq_self,
}
use native.Mathlib.Nat.{le_refl}
use datagit.Maps.{lookup, put, lookup-put, lookup-nil}
use datagit.Core.Key.{Pk}
use datagit.Core.Change.{Schema}
use datagit.Engine.State.{
  Version, Segment, Branch, CommitMeta, Engine, segment, commit_name, root_branch, new,
}
use datagit.Engine.Resolve.{resolve}
use datagit.Engine.Resolve.Winner.{winner}
use datagit.Engine.Commit.{create_branch}
use datagit.Engine.Commit.Effect.{show, lookup-resolve}
use datagit.Engine.History.{history, shown_at}
use datagit.Engine.History.Timeline.{face, shown_early}
use datagit.Engine.Publish.Invariant.{
  IsSane, IsBounded, HasHead, seq_of, seq_of-put, face-winner, IsBounded-mono,
  commit_name-injective,
}

-- Before its first commit a branch without a past shows its tail.
winner_empty :
    (rows : List Version) (b : Bytes) (tail : List Segment) (j : Pk)
    → shown_at 0 (history b j rows) ≡ none
    → face (winner rows (segment b 0 ∷ tail) j) ≡ face (winner rows tail j)
winner_empty rows b tail j h = face-winner rows (segment b 0) tail j ∙ rw h

module _ (e : Engine) (name from : Bytes) (p : Branch) (sane : IsSane e)
    (free : lookup name e.branches ≡ none) (found : lookup from e.branches ≡ some p) where
  abbrev pub fork : Branch
  fork = record {
    name = name;
    head_seq = 0;
    head_commit = p.head_commit;
    parent = from;
    fork_seq = p.head_seq;
    fork_commit = p.head_commit;
    chain = segment from p.head_seq ∷ p.chain;
  }

  abbrev after : Engine
  after = record e { branches = put name fork e.branches }

  pub create_branch-after : create_branch e name from ≡ (after, ok tt)
  unfolding create_branch
  create_branch-after = rw (free, create_branch) (rw found)

  seq_of-after : (x : Bytes) → seq_of after.branches x ≡ seq_of e.branches x
  seq_of-after x =
      seq_of-put e.branches name fork x ∙ (unfold seq_of in ground (arith, bytes_beq_iff name x))

  grown : (c : List Segment) → IsBounded e.branches c → IsBounded after.branches c
  grown c h =
      IsBounded-mono e.branches after.branches c
        (λ x. rw seq_of-after (le_refl (seq_of e.branches x))) h

  tail : IsBounded e.branches fork.chain
  tail = ((unfold seq_of in ground arith), sane.chains from p found)

  no_past : (j : Pk) → shown_at 0 (history name j e.rows) ≡ none
  no_past j =
      shown_early 1 (seq_of e.branches name) 0 (history name j e.rows) (sane.timelines name j)
        (omega arith)

  lookup-after :
      (x : Bytes)
      → lookup x after.branches ≡ (if bytes_beq name x then some fork else lookup x e.branches)
  lookup-after x = lookup-put x name fork e.branches

  chains_after :
      (x : Bytes) (r : Branch) → lookup x after.branches ≡ some r → IsBounded after.branches r.chain
  chains_after x r h = elim (Bool-cases (bytes_beq name x)) [
    | inl here ↦
        let same : fork ≡ r = ground (arith, lookup-after x) in
        subst (λ (q : Branch). IsBounded after.branches q.chain) same (grown fork.chain tail)
    | inr there ↦ grown r.chain (sane.chains x r (ground (arith, lookup-after x)))
  ]

  fork_head : HasHead after name fork
  fork_head =
      let (cm, known, shows) = sane.heads from p found in
      (cm, known, λ j. winner_empty e.rows name fork.chain j (no_past j) ∙ shows j)

  heads_after : (x : Bytes) (r : Branch) → lookup x after.branches ≡ some r → HasHead after x r
  heads_after x r h = elim (Bool-cases (bytes_beq name x)) [
    | inl here ↦
        let same : fork ≡ r = ground (arith, lookup-after x) in
        let named : name ≡ x = (bytes_beq_iff name x).0 here in rw (← same, ← named) fork_head
    | inr there ↦ sane.heads x r (ground (arith, lookup-after x))
  ]

  -- `CreateBranch`, from a branch that exists and to a free name, keeps the invariant.
  pub create_branch-IsSane : IsSane (create_branch e name from).0
  create_branch-IsSane = rw create_branch-after (record {
    timelines = λ x j. rw seq_of-after (sane.timelines x j);
    chains = chains_after;
    commit_chains = λ id cm h. grown cm.chain (sane.commit_chains id cm h);
    heads = heads_after;
    fresh = sane.fresh;
  })

  -- In an engine that satisfies the invariant, after `CreateBranch`, from a branch that exists and to a
  -- free name, the new branch shows what its parent shows, and every other branch what it showed; no
  -- row is written.
  pub resolve-create_branch :
      (j : Pk)
      → (lookup j (resolve (create_branch e name from).0 name) ≡ lookup j (resolve e from))
        × ((x : Bytes) (r : Branch)
            → lookup x e.branches ≡ some r
            → lookup j (resolve (create_branch e name from).0 x) ≡ lookup j (resolve e x))
        × ((create_branch e name from).0.rows ≡ e.rows)
  resolve-create_branch j = (
    rw create_branch-after (
        lookup-resolve after name fork j (lookup-after name ∙ rw (eq_self name))
        ∙ ap show (winner_empty e.rows name fork.chain j (no_past j))
        ∙ sym (lookup-resolve e from p j found)),
    (λ x r known.
        let same : lookup x after.branches ≡ some r =
          ground (arith, lookup-after x, bytes_beq_iff name x) in
        rw create_branch-after
          (lookup-resolve after x r j same ∙ sym (lookup-resolve e x r j known))),
    rw create_branch-after,
  )

abbrev first_branch : Branch
first_branch = record {
  name = root_branch;
  head_seq = 0;
  head_commit = commit_name 1;
  parent = [];
  fork_seq = 0;
  fork_commit = [];
  chain = [];
}

abbrev first_commit : CommitMeta
first_commit = record {
  id = commit_name 1;
  parents = [];
  branch = root_branch;
  seq = 0;
  chain = segment root_branch 0 ∷ [];
}

only {ℓ} : {V : Type ℓ} (k j : Bytes) (v w : V) → lookup j (put k v []) ≡ some w → (k ≡ j) × (v ≡ w)
unfolding lookup put
only k j v w h = ground (arith, bytes_beq_iff k j)

-- A new engine satisfies the invariant.
pub new-IsSane : (schema : Schema) → IsSane (new schema)
unfolding new
new-IsSane schema = record {
  timelines = λ b j. unfold history in tt;
  chains = λ b r h.
      subst (λ (q : Branch). IsBounded (new schema).branches q.chain)
        (only root_branch b first_branch r h).1 tt;
  commit_chains = λ id cm h.
      subst (λ (m : CommitMeta). IsBounded (new schema).branches m.chain)
        (only (commit_name 1) id first_commit cm h).1 (unfold seq_of lookup put in omega arith, tt);
  heads = λ b r h.
      let at = only root_branch b first_branch r h in
      subst (λ (q : Bytes). HasHead (new schema) q r) at.0
        (subst (λ (q : Branch). HasHead (new schema) root_branch q) at.1 first_head);
  fresh = λ n lt. ground (
    arith,
    lookup-put (commit_name n) (commit_name 1) first_commit [],
    lookup-nil {V = CommitMeta} (commit_name n),
    bytes_beq_iff (commit_name 1) (commit_name n),
    commit_name-injective 1 n,
  );
}
  where
    first_head : HasHead (new schema) root_branch first_branch
    first_head = (
      first_commit,
      lookup-put (commit_name 1) (commit_name 1) first_commit [] ∙ rw (eq_self (commit_name 1)),
      λ j. refl,
    )
