-- ===== src/Engine/Commit/Correct.antt =====
-- What `Commit` of internal/engine/engine.go does to every branch and every earlier commit.
use datagit.Prelude.{
  ℕ, ◌+◌, ◌<◌, ◌≡◌, ◌≢◌, ◌∙◌, refl, ap, sym, Option, none, some, List, [], ◌∷◌, Bytes, bytes_beq,
  bytes_eq, if◌then◌else◌, arith, or_else, ok, eq_ne, eq_self,
}
use datagit.Maps.{lookup}
use datagit.Maps.Collect.{bind}
use datagit.Core.Row.{Row}
use datagit.Core.Key.{Pk}
use datagit.Core.Change.{Op, Change, ChangeSet, sorted}
use datagit.Core.Change.Sorted.{IsKeyed, sorted-IsDistinct, find-sorted}
use datagit.Engine.State.{Version, Branch, CommitMeta, Engine, max_seq, segment, commit_name}
use datagit.Engine.Resolve.{resolve, state_at_commit}
use datagit.Engine.Resolve.Winner.{winner}
use datagit.Engine.Commit.{next_version, advance, commit}
use datagit.Engine.Commit.Effect.{
  show, lookup-resolve, lookup-state_at_commit, planned, commit_changes-planned, planned-IsPlan,
  written-planned, applied, show-next_version,
}
use datagit.Engine.History.Timeline.{face}
use datagit.Engine.Publish.{write_all, written, IsPlan}
use datagit.Engine.Publish.Invariant.{IsSane, IsBounded, IsExtension, seq_of, winner_old}
use datagit.Engine.Publish.Step.{
  write_all-IsExtension, winner_new, advance-IsSane, lookup-after, rows-after, old_commit,
  commits-after,
}

-- A branch that did not move, and an earlier commit, show what they showed.
module _ (e : Engine) (branch : Bytes) (old b : Branch) (parents : List Bytes) (rows : List Version)
    (sane : IsSane e) (found : lookup branch e.branches ≡ some old)
    (chain : IsBounded e.branches b.chain)
    (ext : IsExtension e.branches branch (old.head_seq + 1) e.rows rows) where
  abbrev moved : Engine
  moved = advance branch b (old.head_seq + 1) (commit_name (e.next_id + 1)) parents rows e

  pub resolve-advance_ne :
      (x : Bytes) (r : Branch) (j : Pk)
      → lookup x e.branches ≡ some r
      → branch ≢ x
      → lookup j (resolve moved x) ≡ lookup j (resolve e x)
  resolve-advance_ne x r j known ne =
      let same : lookup x moved.branches ≡ some r =
        lookup-after e branch old b parents rows sane found chain ext x
        ∙ rw (eq_ne branch x ne) known in
      lookup-resolve moved x r j same
      ∙ ap show (
          rw (rows-after e branch old b parents rows sane found chain ext) (
            winner_old ext (segment x r.head_seq ∷ r.chain) j
              (unfold seq_of in ground arith, sane.chains x r known)))
      ∙ sym (lookup-resolve e x r j known)

  pub state_at_commit-advance :
      (id : Bytes) (cm : CommitMeta) (j : Pk)
      → lookup id e.commits ≡ some cm
      → lookup j (state_at_commit moved id) ≡ lookup j (state_at_commit e id)
  state_at_commit-advance id cm j known =
      lookup-state_at_commit moved id cm j
        (old_commit e branch old b parents rows sane found chain ext id cm known)
      ∙ ap show (
          rw (rows-after e branch old b parents rows sane found chain ext)
            (winner_old ext cm.chain j (sane.commit_chains id cm known)))
      ∙ sym (lookup-state_at_commit e id cm j known)

-- `Commit` of a change set that names each key once, below the last seq.
module _ (e : Engine) (branch : Bytes) (r : Branch) (cs : ChangeSet) (sane : IsSane e)
    (found : lookup branch e.branches ≡ some r) (fits : r.head_seq + 1 < max_seq)
    (keyed : IsKeyed cs) where
  abbrev at : ℕ
  at = r.head_seq + 1

  abbrev id : Bytes
  id = commit_name (e.next_id + 1)

  abbrev vs : List Version
  vs = planned e.schema.cols branch at id (resolve e branch) (sorted cs)

  abbrev after : Engine
  after = advance branch r at id (r.head_commit ∷ []) (write_all vs e.rows) e

  pub commit-after : commit e branch cs ≡ (after, ok id)
  unfolding commit
  commit-after =
      rw (found, commit)
        (rw
          (commit_changes-planned e.schema.cols branch at id (resolve e branch) (sorted cs) e.rows))

  plan : IsPlan branch at vs
  plan =
      planned-IsPlan e.schema.cols branch at id (resolve e branch) (sorted cs)
        (sorted-IsDistinct cs keyed)

  head_is : seq_of e.branches branch ≡ r.head_seq
  unfolding seq_of
  head_is = rw (found, seq_of)

  next : at ≡ seq_of e.branches branch + 1
  next = rw head_is

  extension : IsExtension e.branches branch at e.rows (write_all vs e.rows)
  extension = write_all-IsExtension e branch at vs sane next fits plan

  chain : IsBounded e.branches r.chain
  chain = sane.chains branch r found

  -- `Commit` keeps the invariant, for a branch below the last seq and a change set that names each key
  -- once.
  pub commit-IsSane : IsSane (commit e branch cs).0
  commit-IsSane = rw commit-after (
      advance-IsSane e branch r r (r.head_commit ∷ []) (write_all vs e.rows) sane found chain
        extension)

  written_here :
      (j : Pk)
      → written j vs
        ≡ bind (lookup j cs) (next_version e.schema.cols branch at id (lookup j (resolve e branch)))
  written_here j =
      written-planned e.schema.cols branch at id (resolve e branch) (sorted cs) j
        (sorted-IsDistinct cs keyed)
      ∙ rw (find-sorted j cs keyed)

  before_here :
      (j : Pk)
      → show (face (winner e.rows (segment branch (seq_of e.branches branch) ∷ r.chain) j))
        ≡ lookup j (resolve e branch)
  before_here j = rw head_is (sym (lookup-resolve e branch r j found))

  show_written :
      (j : Pk) (o : Option Change) (old : Option (Op × Row))
      → show old ≡ lookup j (resolve e branch)
      → show (
          or_else
            (face (bind o (next_version e.schema.cols branch at id (lookup j (resolve e branch)))))
            old)
        ≡ applied o (lookup j (resolve e branch))
  show_written j none old h = h
  show_written j (some ch) old h =
      show-next_version e.schema.cols branch at id (resolve e branch) (lookup j (resolve e branch))
        ch old h

  -- In an engine that satisfies the invariant, after `Commit`, below the last seq and for a change set
  -- that names each key once, the branch shows of every key what the change set leaves of what it
  -- showed.
  pub resolve-commit :
      (j : Pk)
      → lookup j (resolve (commit e branch cs).0 branch)
        ≡ applied (lookup j cs) (lookup j (resolve e branch))
  resolve-commit j =
      let moved : Branch = record r { head_seq = at; head_commit = id } in
      let same : lookup branch after.branches ≡ some moved =
        lookup-after e branch r r (r.head_commit ∷ []) (write_all vs e.rows) sane found chain
          extension branch
        ∙ rw (eq_self branch) in
      let shown : face (winner after.rows (segment branch at ∷ r.chain) j)
          ≡ or_else (face (written j vs))
              (face (winner e.rows (segment branch (seq_of e.branches branch) ∷ r.chain) j)) =
        rw
          (rows-after e branch r r (r.head_commit ∷ []) (write_all vs e.rows) sane found chain
            extension)
          (winner_new e branch at vs sane next fits plan r.chain j chain) in
      rw commit-after (
        lookup-resolve after branch moved j same
        ∙ ap show shown
        ∙ ap
            (λ (o : Option Version). show (
              or_else (face o)
                (face (winner e.rows (segment branch (seq_of e.branches branch) ∷ r.chain) j))))
            (written_here j)
        ∙ show_written j (lookup j cs)
            (face (winner e.rows (segment branch (seq_of e.branches branch) ∷ r.chain) j))
            (before_here j))

  -- In an engine that satisfies the invariant, `Commit`, below the last seq and for a change set that
  -- names each key once, changes what no other branch and no earlier commit shows.
  pub commit_isolated :
      (j : Pk)
      → ((x : Bytes) (b : Branch)
          → lookup x e.branches ≡ some b
          → branch ≢ x
          → lookup j (resolve (commit e branch cs).0 x) ≡ lookup j (resolve e x))
        × ((c : Bytes) (cm : CommitMeta)
            → lookup c e.commits ≡ some cm
            → lookup j (state_at_commit (commit e branch cs).0 c) ≡ lookup j (state_at_commit e c))
  commit_isolated j = (
    (λ x b known ne. rw commit-after (
        resolve-advance_ne e branch r r (r.head_commit ∷ []) (write_all vs e.rows) sane found chain
          extension x b j known ne)),
    (λ c cm known. rw commit-after (
        state_at_commit-advance e branch r r (r.head_commit ∷ []) (write_all vs e.rows) sane found
          chain extension c cm j known)),
  )

  pub lookup-commit_branches :
      (x : Bytes)
      → lookup x (commit e branch cs).0.branches ≡ (
          if bytes_beq branch x
          then some (record r { head_seq = at; head_commit = id })
          else lookup x e.branches)
  lookup-commit_branches x = rw commit-after (
      lookup-after e branch r r (r.head_commit ∷ []) (write_all vs e.rows) sane found chain
        extension x)

  pub lookup-commit_commits :
      (x : Bytes)
      → lookup x (commit e branch cs).0.commits ≡ (
          if bytes_beq id x
          then some (record {
            id = id;
            parents = r.head_commit ∷ [];
            branch = branch;
            seq = at;
            chain = segment branch at ∷ r.chain;
          })
          else lookup x e.commits)
  lookup-commit_commits x = rw commit-after (
      commits-after e branch r r (r.head_commit ∷ []) (write_all vs e.rows) sane found chain
        extension x)

  pub commit_counters :
      ((commit e branch cs).1 ≡ ok id)
      × ((commit e branch cs).0.next_id ≡ e.next_id + 1)
      × ((commit e branch cs).0.schema ≡ e.schema)
  unfolding advance
  commit_counters = rw commit-after (refl, refl, refl)

  -- Read at the seq of the old head, the branch's chain shows what it showed.
  pub winner-commit_old :
      (j : Pk)
      → face (winner (commit e branch cs).0.rows (segment branch r.head_seq ∷ r.chain) j)
        ≡ face (winner e.rows (segment branch r.head_seq ∷ r.chain) j)
  winner-commit_old j = rw commit-after (
      rw
        (rows-after e branch r r (r.head_commit ∷ []) (write_all vs e.rows) sane found chain
          extension)
        (winner_old extension (segment branch r.head_seq ∷ r.chain) j
          (omega (arith, head_is), chain)))
