-- ===== src/Engine/Publish/Step.antt =====
-- Moving a branch of internal/engine/engine.go to its next commit.
use datagit.Prelude.{
  ℕ, ◌+◌, ◌<◌, ◌≤◌, ◌≡◌, ◌∙◌, refl, ap, sym, subst, false, Option, none, some, List, ◌∷◌, Bytes,
  bytes_beq, bytes_beq_iff, bytes_eq, if◌then◌else◌, arith, Bool-cases, inl, inr, or_else,
  Option-cases, eq_self,
}
use datagit.Maps.{lookup, put, lookup-put}
use datagit.Core.Key.{Pk}
use datagit.Core.Row.{Row}
use datagit.Core.Change.{Op}
use datagit.Engine.State.{
  Version, Segment, Branch, CommitMeta, Engine, max_seq, segment, commit_name, chain_for,
}
use datagit.Engine.Resolve.Winner.{winner}
use datagit.Engine.Commit.{advance}
use datagit.Engine.History.{history, shown_at}
use datagit.Engine.History.Timeline.{
  IsTimeline, IsTimeline-write, IsTimeline-le, shown_new, shown_old, shown_later, face,
}
use datagit.Engine.Publish.{
  write_all, written, written_interval, IsPlan, history-write_all, history-write_all_ne,
}
use datagit.Engine.Publish.Invariant.{
  seq_of, IsBounded, HasHead, IsSane, IsExtension, face-winner, winner_old, seq_of-put,
  IsBounded-mono, commit_name-injective,
}

-- A plan at the next seq of a branch.
module _ (e : Engine) (branch : Bytes) (at : ℕ) (vs : List Version) (sane : IsSane e)
    (next : at ≡ seq_of e.branches branch + 1) (fits : at < max_seq)
    (plan : IsPlan branch at vs) where
  keeps_here :
      (j : Pk) (s : ℕ)
      → s < at
      → face (shown_at s (history branch j (write_all vs e.rows)))
        ≡ face (shown_at s (history branch j e.rows))
  keeps_here j s lt =
      rw (history-write_all branch at vs e.rows j plan) (elim (Option-cases (written j vs)) [
        | inl untouched ↦ rw untouched
        | inr (v, new) ↦ rw new (
            shown_old at s (history branch j e.rows) v lt fits
              (written_interval branch at vs j v plan new).0)
      ])

  IsTimeline-here : (j : Pk) → IsTimeline 1 at (history branch j (write_all vs e.rows))
  IsTimeline-here j =
      let before = sane.timelines branch j in
      rw (history-write_all branch at vs e.rows j plan) (elim (Option-cases (written j vs)) [
        | inl untouched ↦ rw untouched (
            IsTimeline-le 1 (seq_of e.branches branch) at (history branch j e.rows) before
              (omega arith))
        | inr (v, new) ↦
            let interval = written_interval branch at vs j v plan new in
            rw new (
              IsTimeline-write 1 (seq_of e.branches branch) at (history branch j e.rows) v before
                (omega arith) (omega arith) fits interval.0 interval.1)
      ])

  pub write_all-IsExtension : IsExtension e.branches branch at e.rows (write_all vs e.rows)
  write_all-IsExtension = record {
    keeps = λ b j s le. elim (Bool-cases (bytes_beq branch b)) [
      | inl here ↦
          let same : branch ≡ b = (bytes_beq_iff branch b).0 here in
          rw same at (keeps_here j s (ground arith))
      | inr there ↦ rw (history-write_all_ne branch at vs e.rows b j plan there)
    ];
    timelines = λ b j. elim (Bool-cases (bytes_beq branch b)) [
      | inl here ↦
          let same : branch ≡ b = (bytes_beq_iff branch b).0 here in
          rw here (rw same at (IsTimeline-here j))
      | inr there ↦
          rw there
            (rw (history-write_all_ne branch at vs e.rows b j plan there) (sane.timelines b j))
    ];
  }

  shown_here :
      (j : Pk) (rest : Option (Op × Row))
      → or_else (face (shown_at at (history branch j (write_all vs e.rows)))) rest
        ≡ or_else
            (face (written j vs))
            (or_else (face (shown_at (seq_of e.branches branch) (history branch j e.rows))) rest)
  shown_here j rest =
      let before = sane.timelines branch j in
      rw (history-write_all branch at vs e.rows j plan) (elim (Option-cases (written j vs)) [
        | inl untouched ↦ rw untouched (
            rw (
              shown_later 1 (seq_of e.branches branch) at (history branch j e.rows) before
                (omega arith) fits))
        | inr (v, new) ↦
            let interval = written_interval branch at vs j v plan new in
            rw new (
              rw (
                shown_new 1 (seq_of e.branches branch) at (history branch j e.rows) v before
                  (omega arith) fits interval.0 interval.1))
      ])

  -- At the new seq the branch shows the plan's versions, and else what it showed at its head.
  pub winner_new :
      (tail : List Segment) (j : Pk)
      → IsBounded e.branches tail
      → face (winner (write_all vs e.rows) (segment branch at ∷ tail) j)
        ≡ or_else
            (face (written j vs))
            (face (winner e.rows (segment branch (seq_of e.branches branch) ∷ tail) j))
  winner_new tail j bounded =
      face-winner (write_all vs e.rows) (segment branch at) tail j
      ∙ rw (winner_old write_all-IsExtension tail j bounded) (
          rw (face-winner e.rows (segment branch (seq_of e.branches branch)) tail j)
            (shown_here j (face (winner e.rows tail j))))

-- A branch `b`, whose chain may be new, moves to a commit with a fresh id over extended rows.
module _ (e : Engine) (branch : Bytes) (old b : Branch) (parents : List Bytes) (rows : List Version)
    (sane : IsSane e) (found : lookup branch e.branches ≡ some old)
    (chain : IsBounded e.branches b.chain)
    (ext : IsExtension e.branches branch (old.head_seq + 1) e.rows rows) where
  abbrev at : ℕ
  at = old.head_seq + 1

  abbrev id : Bytes
  id = commit_name (e.next_id + 1)

  abbrev moved : Branch
  moved = record b { head_seq = at; head_commit = id }

  abbrev after : Engine
  after = advance branch b at id parents rows e

  seq_of-found : seq_of e.branches branch ≡ old.head_seq
  unfolding seq_of
  seq_of-found = rw (found, seq_of)

  seq_of-after :
      (x : Bytes)
      → seq_of after.branches x ≡ (if bytes_beq branch x then at else seq_of e.branches x)
  unfolding advance
  seq_of-after x = seq_of-put e.branches branch moved x

  seq_grows : (x : Bytes) → seq_of e.branches x ≤ seq_of after.branches x
  seq_grows x = ground (arith, seq_of-after x, seq_of-found, bytes_beq_iff branch x)

  grown : (c : List Segment) → IsBounded e.branches c → IsBounded after.branches c
  grown c h = IsBounded-mono e.branches after.branches c seq_grows h

  pub rows-after : after.rows ≡ rows
  unfolding advance
  rows-after = refl

  pub lookup-after :
      (x : Bytes)
      → lookup x after.branches ≡ (if bytes_beq branch x then some moved else lookup x e.branches)
  unfolding advance
  lookup-after x = lookup-put x branch moved e.branches

  abbrev new_meta : CommitMeta
  new_meta = record {
    id = id;
    parents = parents;
    branch = branch;
    seq = at;
    chain = segment branch at ∷ b.chain;
  }

  chain_at : chain_for (put branch moved e.branches) branch at ≡ segment branch at ∷ b.chain
  unfolding chain_for
  chain_at = rw (lookup-put branch branch moved e.branches, eq_self branch, chain_for)

  -- The commits after the step: the new one, with the branch's new chain, and the old ones.
  pub commits-after :
      (x : Bytes)
      → lookup x after.commits ≡ (if bytes_beq id x then some new_meta else lookup x e.commits)
  unfolding advance
  commits-after x =
      ap (λ (c : List Segment). lookup x (put id (record new_meta { chain = c }) e.commits))
        chain_at
      ∙ lookup-put x id new_meta e.commits

  new_chain : IsBounded after.branches (segment branch at ∷ b.chain)
  new_chain =
      (ground (arith, seq_of-after branch, bytes_beq_iff branch branch), grown b.chain chain)

  chains_after :
      (x : Bytes) (r : Branch) → lookup x after.branches ≡ some r → IsBounded after.branches r.chain
  chains_after x r h = elim (Bool-cases (bytes_beq branch x)) [
    | inl here ↦
        let same : moved ≡ r = ground (arith, lookup-after x) in
        subst (λ (q : Branch). IsBounded after.branches q.chain) same (grown b.chain chain)
    | inr there ↦ grown r.chain (sane.chains x r (ground (arith, lookup-after x)))
  ]

  commit_chains_after :
      (x : Bytes) (cm : CommitMeta)
      → lookup x after.commits ≡ some cm
      → IsBounded after.branches cm.chain
  commit_chains_after x cm h = elim (Bool-cases (bytes_beq id x)) [
    | inl here ↦
        let same : new_meta ≡ cm = ground (arith, commits-after x) in
        subst (λ (m : CommitMeta). IsBounded after.branches m.chain) same new_chain
    | inr there ↦ grown cm.chain (sane.commit_chains x cm (ground (arith, commits-after x)))
  ]

  -- An id that was in use is not the new one.
  old_id : (x : Bytes) (cm : CommitMeta) → lookup x e.commits ≡ some cm → bytes_beq id x ≡ false
  old_id x cm h = ground (arith, sane.fresh (e.next_id + 1) (omega arith), bytes_beq_iff id x)

  pub old_commit :
      (x : Bytes) (cm : CommitMeta)
      → lookup x e.commits ≡ some cm
      → lookup x after.commits ≡ some cm
  old_commit x cm h = ground (arith, commits-after x, old_id x cm h)

  heads_after : (x : Bytes) (r : Branch) → lookup x after.branches ≡ some r → HasHead after x r
  heads_after x r h = elim (Bool-cases (bytes_beq branch x)) [
    | inl here ↦
        let same : moved ≡ r = ground (arith, lookup-after x) in
        let name : branch ≡ x = (bytes_beq_iff branch x).0 here in
        rw (← same, ← name) (new_meta, commits-after id ∙ rw (eq_self id), λ j. refl)
    | inr there ↦
        let before : lookup x e.branches ≡ some r = ground (arith, lookup-after x) in
        let (cm, known, shows) = sane.heads x r before in
        let within : r.head_seq ≤ seq_of e.branches x = unfold seq_of in ground arith in
        (
          cm,
          old_commit r.head_commit cm known,
          λ j. rw rows-after (
              winner_old ext (segment x r.head_seq ∷ r.chain) j (within, sane.chains x r before)
              ∙ shows j
              ∙ sym (winner_old ext cm.chain j (sane.commit_chains r.head_commit cm known))),
        )
  ]

  fresh_after : (n : ℕ) → after.next_id < n → lookup (commit_name n) after.commits ≡ none
  unfolding advance
  fresh_after n lt = ground (
    arith,
    commits-after (commit_name n),
    bytes_beq_iff id (commit_name n),
    commit_name-injective (e.next_id + 1) n,
    sane.fresh n (omega arith),
  )

  -- The invariant holds after the step.
  pub advance-IsSane : IsSane after
  advance-IsSane = record {
    timelines = λ x j. rw (rows-after, seq_of-after x) (ext.timelines x j);
    chains = chains_after;
    commit_chains = commit_chains_after;
    heads = heads_after;
    fresh = fresh_after;
  }
