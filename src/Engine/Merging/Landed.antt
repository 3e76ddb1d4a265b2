-- ===== src/Engine/Merging/Landed.antt =====
-- A merged table of internal/engine/engine.go that lands on a branch: what the branch shows then, and
-- that nothing else changes.
use datagit.Prelude.{
  ℕ, ◌+◌, ◌<◌, ◌≡◌, ◌≢◌, ◌∙◌, ap, Option, some, List, [], ◌∷◌, Bytes, bytes_eq, Option-cases, inl,
  inr, or_else, eq_self,
}
use datagit.Maps.{lookup, IsMap}
use datagit.Maps.Collect.{collect-IsMap}
use datagit.Core.Key.{Pk}
use datagit.Core.Change.{Table}
use datagit.Merge.Results.{merge_states-IsMap}
use datagit.Engine.State.{
  Version, Segment, Branch, CommitMeta, Engine, max_seq, segment, commit_name, chain_for,
}
use datagit.Engine.Resolve.{resolve, resolve_chain, state_at_commit, winners, live}
use datagit.Engine.Resolve.Winner.{winner}
use datagit.Engine.Commit.{advance}
use datagit.Engine.Commit.Effect.{show, lookup-resolve}
use datagit.Engine.Commit.Correct.{resolve-advance_ne, state_at_commit-advance}
use datagit.Engine.History.Timeline.{face}
use datagit.Engine.Publish.{write_all, IsPlan}
use datagit.Engine.Publish.Invariant.{IsSane, IsBounded, IsExtension, seq_of}
use datagit.Engine.Publish.Step.{
  write_all-IsExtension, winner_new, advance-IsSane, lookup-after, rows-after,
}
use datagit.Engine.Merging.{merge_heads}
use datagit.Engine.Merging.Plan.{plan_of}
use datagit.Engine.Merging.Applied.{
  merged_row, version_for, written_keys, plan-IsPlan, written-plan, show-version_for,
}

pub resolve_chain-IsMap :
    (rows : List Version) (chain : List Segment) (sid : Bytes)
    → IsMap (resolve_chain rows chain sid)
unfolding resolve_chain
resolve_chain-IsMap rows chain sid = collect-IsMap live (winners rows chain sid)

pub resolve-IsMap : (e : Engine) (b : Bytes) → IsMap (resolve e b)
unfolding resolve
resolve-IsMap e b = elim (Option-cases (lookup b e.branches)) [
  | inl absent ↦ rw (absent, resolve) tt
  | inr (r, found) ↦
      rw (found, resolve) (resolve_chain-IsMap e.rows (chain_for e.branches b r.head_seq) [])
]

pub merge_heads-IsMap :
    (e : Engine) (into from base : Bytes) → IsMap (merge_heads e into from base).0
unfolding merge_heads
merge_heads-IsMap e into from base = merge_states-IsMap e.schema.cols _ _ _ _ _

-- The merged table lands on a branch `old`, whose chain is then that of `b`.
module _ (e : Engine) (branch : Bytes) (old b : Branch) (parents : List Bytes)
    (current result : Table) (sane : IsSane e) (found : lookup branch e.branches ≡ some old)
    (bounded : IsBounded e.branches b.chain) (fits : old.head_seq + 1 < max_seq)
    (shown : (j : Pk)
      → show (face (winner e.rows (segment branch old.head_seq ∷ b.chain) j)) ≡ lookup j current)
    (is_current : IsMap current) (is_result : IsMap result) where
  abbrev pub at : ℕ
  at = old.head_seq + 1

  abbrev pub vs : List Version
  vs =
      plan_of (version_for e.schema.cols branch at (commit_name (e.next_id + 1)) current result)
        (written_keys e.schema.cols branch at (commit_name (e.next_id + 1)) current result)

  abbrev pub landed : Engine
  landed = advance branch b at (commit_name (e.next_id + 1)) parents (write_all vs e.rows) e

  plan : IsPlan branch at vs
  plan =
      plan-IsPlan e.schema.cols branch at (commit_name (e.next_id + 1)) current result is_current
        is_result

  head_is : seq_of e.branches branch ≡ old.head_seq
  unfolding seq_of
  head_is = rw (found, seq_of)

  next : at ≡ seq_of e.branches branch + 1
  next = rw head_is

  extension : IsExtension e.branches branch at e.rows (write_all vs e.rows)
  extension = write_all-IsExtension e branch at vs sane next fits plan

  pub landed-IsSane : IsSane landed
  landed-IsSane =
      advance-IsSane e branch old b parents (write_all vs e.rows) sane found bounded extension

  pub resolve-landed :
      (j : Pk) → lookup j (resolve landed branch) ≡ merged_row (lookup j current) (lookup j result)
  resolve-landed j =
      let moved : Branch = record b { head_seq = at; head_commit = commit_name (e.next_id + 1) } in
      let same : lookup branch landed.branches ≡ some moved =
        lookup-after e branch old b parents (write_all vs e.rows) sane found bounded extension
          branch
        ∙ rw (eq_self branch) in
      let old_face = face (winner e.rows (segment branch (seq_of e.branches branch) ∷ b.chain) j) in
      lookup-resolve landed branch moved j same
      ∙ ap show (
          rw (rows-after e branch old b parents (write_all vs e.rows) sane found bounded extension)
            (winner_new e branch at vs sane next fits plan b.chain j bounded))
      ∙ ap (λ (o : Option Version). show (or_else (face o) old_face))
          (written-plan e.schema.cols branch at (commit_name (e.next_id + 1)) current result j)
      ∙ show-version_for e.schema.cols branch at (commit_name (e.next_id + 1)) current result j
          old_face (rw head_is (shown j))

  pub landed_isolated :
      (j : Pk)
      → ((x : Bytes) (r : Branch)
          → lookup x e.branches ≡ some r
          → branch ≢ x
          → lookup j (resolve landed x) ≡ lookup j (resolve e x))
        × ((c : Bytes) (cm : CommitMeta)
            → lookup c e.commits ≡ some cm
            → lookup j (state_at_commit landed c) ≡ lookup j (state_at_commit e c))
  landed_isolated j = (
    (λ x r known ne.
        resolve-advance_ne e branch old b parents (write_all vs e.rows) sane found bounded extension
          x r j known ne),
    (λ c cm known.
        state_at_commit-advance e branch old b parents (write_all vs e.rows) sane found bounded
          extension c cm j known),
  )
