-- ===== src/Engine/Diff/Commits.antt =====
-- `Diff` of internal/engine/engine.go over the seq that a `Commit` wrote.
use datagit.Prelude.{
  ℕ, ◌+◌, ◌<◌, ◌≡◌, ◌∙◌, ap, sym, subst, Option, some, List, ◌∷◌, Bytes, bytes_eq, arith, eq_self,
}
use datagit.Maps.{lookup}
use datagit.Core.Mask.{ColId}
use datagit.Core.Row.{Row}
use datagit.Core.Key.{Pk}
use datagit.Core.Change.{Change, ChangeSet, Schema}
use datagit.Core.Change.Sorted.{IsKeyed}
use datagit.Engine.State.{Branch, Engine, max_seq, segment, commit_name}
use datagit.Engine.Resolve.{resolve}
use datagit.Engine.Commit.{commit}
use datagit.Engine.Commit.Effect.{applied, show, lookup-resolve, lookup-chain, chain_for-found}
use datagit.Engine.Commit.Correct.{
  commit-IsSane, resolve-commit, commit_counters, lookup-commit_branches, winner-commit_old,
}
use datagit.Engine.Publish.Invariant.{IsSane}
use datagit.Engine.Resolve.Winner.{winner}
use datagit.Engine.History.Timeline.{face}
use datagit.Engine.Diff.{diff}
use datagit.Engine.Diff.Quiet.{table_at}
use datagit.Engine.Diff.Correct.{IsExact, IsWhole, diff-IsExact}

IsExact-along :
    {cols cols' : List ColId} {old old' new new' : Option Row} (d : Option Change)
    → cols ≡ cols'
    → old ≡ old'
    → new ≡ new'
    → IsExact cols old new d
    → IsExact cols' old' new' d
IsExact-along {cols' = cols'} {old} {old'} {new = new} d p q r h =
    subst (λ x. IsExact cols' old' x d) r
      (subst (λ x. IsExact cols' x new d) q (subst (λ x. IsExact x old new d) p h))

module _ (e : Engine) (branch : Bytes) (r : Branch) (cs : ChangeSet) (j : Pk) (sane : IsSane e)
    (found : lookup branch e.branches ≡ some r) (fits : r.head_seq + 1 < max_seq)
    (keyed : IsKeyed cs) where
  abbrev moved : Branch
  moved = record r { head_seq = r.head_seq + 1; head_commit = commit_name (e.next_id + 1) }

  found_after : lookup branch (commit e branch cs).0.branches ≡ some moved
  found_after =
      lookup-commit_branches e branch r cs sane found fits keyed branch ∙ rw (eq_self branch)

  abbrev after : Engine
  after = (commit e branch cs).0

  lookup-table_at :
      (s : ℕ)
      → lookup j (table_at after branch s)
        ≡ show (face (winner after.rows (segment branch s ∷ r.chain) j))
  lookup-table_at s =
      rw (chain_for-found after.branches branch moved s found_after)
        (lookup-chain after.rows (segment branch s ∷ r.chain) j)

  table_at_head : lookup j (table_at after branch r.head_seq) ≡ lookup j (resolve e branch)
  table_at_head =
      lookup-table_at r.head_seq
      ∙ ap show (winner-commit_old e branch r cs sane found fits keyed j)
      ∙ sym (lookup-resolve e branch r j found)

  table_at_next :
      lookup j (table_at after branch (r.head_seq + 1))
      ≡ applied (lookup j cs) (lookup j (resolve e branch))
  table_at_next =
      lookup-table_at (r.head_seq + 1)
      ∙ sym (lookup-resolve after branch moved j found_after)
      ∙ resolve-commit e branch r cs sane found fits keyed j

  module _ (whole_old : IsWhole (lookup j (resolve e branch)))
      (whole_new : IsWhole (applied (lookup j cs) (lookup j (resolve e branch)))) where
    -- In an engine that satisfies the invariant, for a branch below the last seq and a change set
    -- that names each key once: `Diff` over the seq that `Commit` wrote has of each key exactly the
    -- change between the row that the branch showed and the row that the change set makes of it,
    -- where neither holds a NaN.
    pub diff-commit :
        IsExact e.schema.cols
          (lookup j (resolve e branch))
          (applied (lookup j cs) (lookup j (resolve e branch)))
          (lookup j (diff (commit e branch cs).0 branch r.head_seq (r.head_seq + 1)))
    diff-commit =
        IsExact-along (lookup j (diff after branch r.head_seq (r.head_seq + 1)))
          (ap (λ (s : Schema). s.cols) (commit_counters e branch r cs sane found fits keyed).2)
          table_at_head table_at_next
          (diff-IsExact after branch r.head_seq (r.head_seq + 1) j
            (commit-IsSane e branch r cs sane found fits keyed) (omega arith) fits
            (subst IsWhole (sym table_at_head) whole_old)
            (subst IsWhole (sym table_at_next) whole_new))
