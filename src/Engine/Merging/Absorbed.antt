-- ===== src/Engine/Merging/Absorbed.antt =====
-- A clean `UpdateFromParent` of internal/engine/engine.go, where the parent has moved.
use datagit.Prelude.{
  ◌+◌, ◌<◌, ◌≡◌, ◌≢◌, ◌∙◌, refl, ap, sym, true, false, some, List, [], ◌∷◌, Bytes, bytes_eq,
  bytes_beq, arith, eq_self,
}
use datagit.Maps.{lookup, put, lookup-put, put-put}
use datagit.Core.Key.{Pk}
use datagit.Core.Change.{Table}
use datagit.Engine.State.{Version, Branch, CommitMeta, Engine, max_seq, segment, commit_name}
use datagit.Engine.Resolve.{resolve, state_at_commit}
use datagit.Engine.Resolve.Winner.{winner}
use datagit.Engine.Commit.{advance}
use datagit.Engine.Commit.Effect.{show, lookup-resolve}
use datagit.Engine.History.Timeline.{face}
use datagit.Engine.Publish.Invariant.{IsSane, IsBounded, seq_of}
use datagit.Engine.Merging.{
  apply_merge_result, merge_heads, advance_fork, absorb, update_from_parent, is_clean,
}
use datagit.Merge.Cells.{merge_states}
use datagit.Engine.Masks.{mask_since}
use datagit.Engine.Merging.Applied.{merged_row, loops-plan_of}
use datagit.Engine.Merging.Landed.{
  resolve-IsMap, merge_heads-IsMap, landed, landed-IsSane, resolve-landed, landed_isolated,
}

-- The engine between the move of the fork point and the write of the merged rows.
abbrev pub forked : Engine → Bytes → Branch → Branch → Engine
forked e branch b p = record e { branches = put branch (advance_fork b p) e.branches }

module _ (e : Engine) (branch : Bytes) (b p : Branch) (sane : IsSane e)
    (found : lookup branch e.branches ≡ some b) (child : bytes_beq b.parent [] ≡ false)
    (found_parent : lookup b.parent e.branches ≡ some p)
    (moved : bytes_beq p.head_commit b.fork_commit ≡ false)
    (clean : is_clean (merge_heads e branch b.parent b.fork_commit).1 ≡ true)
    (fits : b.head_seq + 1 < max_seq) where
  abbrev merged : Table
  merged = (merge_heads e branch b.parent b.fork_commit).0

  tail : IsBounded e.branches (advance_fork b p).chain
  unfolding advance_fork
  tail = ((unfold seq_of in ground arith), sane.chains b.parent p found_parent)

  shown :
      (j : Pk)
      → show (face (winner e.rows (segment branch b.head_seq ∷ (advance_fork b p).chain) j))
        ≡ lookup j (resolve (forked e branch b p) branch)
  unfolding advance_fork
  shown j = sym (
      lookup-resolve (forked e branch b p) branch (advance_fork b p) j
        (lookup-put branch branch (advance_fork b p) e.branches ∙ rw (eq_self branch)))

  abbrev after : Engine
  after =
      landed e branch b (advance_fork b p) (b.head_commit ∷ p.head_commit ∷ [])
        (resolve (forked e branch b p) branch) merged sane found tail fits shown
        (resolve-IsMap (forked e branch b p) branch)
        (merge_heads-IsMap e branch b.parent b.fork_commit)

  -- Advancing the fork point first leaves no trace in the map.
  advance-forked :
      (rows : List Version)
      → advance branch
          (advance_fork b p)
          (b.head_seq + 1)
          (commit_name (e.next_id + 1))
          (b.head_commit ∷ p.head_commit ∷ [])
          rows
          (forked e branch b p)
        ≡ advance branch
            (advance_fork b p)
            (b.head_seq + 1)
            (commit_name (e.next_id + 1))
            (b.head_commit ∷ p.head_commit ∷ [])
            rows
            e
  unfolding advance
  advance-forked rows = rw (put-put branch) refl

  update-after : (update_from_parent e branch).0 ≡ after
  unfolding update_from_parent absorb apply_merge_result advance_fork
  update-after =
      rw (found, update_from_parent)
        (rw child (
          rw found_parent (
            rw moved (
              rw clean (
                ap
                  (λ (rows : List Version).
                    advance branch (advance_fork b p) (b.head_seq + 1) (commit_name (e.next_id + 1))
                      (b.head_commit ∷ p.head_commit ∷ []) rows (forked e branch b p))
                  (loops-plan_of e.schema.cols branch (b.head_seq + 1) (commit_name (e.next_id + 1))
                    (resolve (forked e branch b p) branch) merged e.rows)
                ∙ advance-forked _)))))

  -- A clean `UpdateFromParent` whose parent has moved, below the last seq, keeps the invariant.
  pub update_from_parent-IsSane : IsSane (update_from_parent e branch).0
  update_from_parent-IsSane = rw update-after (
      landed-IsSane e branch b (advance_fork b p) (b.head_commit ∷ p.head_commit ∷ [])
        (resolve (forked e branch b p) branch) merged sane found tail fits shown
        (resolve-IsMap (forked e branch b p) branch)
        (merge_heads-IsMap e branch b.parent b.fork_commit))

  -- In an engine that satisfies the invariant, after a clean `UpdateFromParent` whose parent has moved,
  -- below the last seq, the branch shows of every key the row that the merge gives of the table at the
  -- fork commit, the branch's as ours and the parent's as theirs, or the row that it showed over the
  -- moved fork point where the two are `Equal`.
  pub resolve-update_from_parent :
      (j : Pk)
      → lookup j (resolve (update_from_parent e branch).0 branch)
        ≡ merged_row (lookup j (resolve (forked e branch b p) branch)) (
            lookup j
              (merge_states e.schema.cols
                (state_at_commit e b.fork_commit)
                (resolve e branch)
                (resolve e b.parent)
                (mask_since e branch b.fork_commit)
                (mask_since e b.parent b.fork_commit)).0)
  unfolding merge_heads
  resolve-update_from_parent j = rw update-after (
      resolve-landed e branch b (advance_fork b p) (b.head_commit ∷ p.head_commit ∷ [])
        (resolve (forked e branch b p) branch) merged sane found tail fits shown
        (resolve-IsMap (forked e branch b p) branch)
        (merge_heads-IsMap e branch b.parent b.fork_commit) j)

  -- In an engine that satisfies the invariant, a clean `UpdateFromParent` whose parent has moved, below
  -- the last seq, changes what no other branch, be it a child of this one, and no earlier commit shows.
  pub update_from_parent_isolated :
      (j : Pk)
      → ((x : Bytes) (r : Branch)
          → lookup x e.branches ≡ some r
          → branch ≢ x
          → lookup j (resolve (update_from_parent e branch).0 x) ≡ lookup j (resolve e x))
        × ((c : Bytes) (cm : CommitMeta)
            → lookup c e.commits ≡ some cm
            → lookup j (state_at_commit (update_from_parent e branch).0 c)
              ≡ lookup j (state_at_commit e c))
  update_from_parent_isolated j = rw update-after (
      landed_isolated e branch b (advance_fork b p) (b.head_commit ∷ p.head_commit ∷ [])
        (resolve (forked e branch b p) branch) merged sane found tail fits shown
        (resolve-IsMap (forked e branch b p) branch)
        (merge_heads-IsMap e branch b.parent b.fork_commit) j)
