-- ===== src/Engine/Merging/Merged.antt =====
-- A clean `Merge` of internal/engine/engine.go.
use datagit.Prelude.{
  ◌+◌, ◌<◌, ◌≡◌, ◌≢◌, ap, sym, true, some, List, [], ◌∷◌, Bytes, bytes_eq, Result, ok, ◌⊎◌,
}
use datagit.Maps.{lookup}
use datagit.Core.Key.{Pk}
use datagit.Core.Change.{Table}
use datagit.Engine.State.{Version, Branch, CommitMeta, Engine, max_seq, commit_name}
use datagit.Engine.Resolve.{resolve, state_at_commit}
use datagit.Engine.Commit.{advance}
use datagit.Engine.Commit.Effect.{lookup-resolve}
use datagit.Engine.Ancestry.{merge_base}
use datagit.Engine.Publish.Invariant.{IsSane}
use datagit.Engine.Merging.{MergeResult, apply_merge_result, merge_heads, merge_at, merge, is_clean}
use datagit.Merge.Cells.{merge_states}
use datagit.Engine.Masks.{mask_since}
use datagit.Engine.Merging.Applied.{merged_row, loops-plan_of}
use datagit.Engine.Merging.Landed.{
  resolve-IsMap, merge_heads-IsMap, landed, landed-IsSane, resolve-landed, landed_isolated,
}

module _ (e : Engine) (from into base : Bytes) (fb tb : Branch) (sane : IsSane e)
    (found_from : lookup from e.branches ≡ some fb) (found_into : lookup into e.branches ≡ some tb)
    (one_base : merge_base e.commits tb.head_commit fb.head_commit ≡ base ∷ [])
    (clean : is_clean (merge_heads e into from base).1 ≡ true)
    (fits : tb.head_seq + 1 < max_seq) where
  abbrev merged : Table
  merged = (merge_heads e into from base).0

  abbrev after : Engine
  after =
      landed e into tb tb (tb.head_commit ∷ fb.head_commit ∷ []) (resolve e into) merged sane
        found_into (sane.chains into tb found_into) fits
        (λ j. sym (lookup-resolve e into tb j found_into)) (resolve-IsMap e into)
        (merge_heads-IsMap e into from base)

  merge-after : (merge e from into).0 ≡ after
  unfolding merge merge_at apply_merge_result
  merge-after =
      rw (found_from, merge)
        (rw found_into (
          rw one_base (
            rw clean (
              ap
                (λ (rows : List Version).
                  advance into tb (tb.head_seq + 1) (commit_name (e.next_id + 1))
                    (tb.head_commit ∷ fb.head_commit ∷ []) rows e)
                (loops-plan_of e.schema.cols into (tb.head_seq + 1) (commit_name (e.next_id + 1))
                  (resolve e into) merged e.rows)))))

  -- A clean `Merge` over one merge base, below the last seq, keeps the invariant.
  pub merge-IsSane : IsSane (merge e from into).0
  merge-IsSane = rw merge-after (
      landed-IsSane e into tb tb (tb.head_commit ∷ fb.head_commit ∷ []) (resolve e into) merged sane
        found_into (sane.chains into tb found_into) fits
        (λ j. sym (lookup-resolve e into tb j found_into)) (resolve-IsMap e into)
        (merge_heads-IsMap e into from base))

  -- In an engine that satisfies the invariant, after a clean `Merge` over one merge base, below the
  -- last seq, the target shows of every key the row that the merge gives of the base's table, the
  -- target's as ours and the source's as theirs, or the row that it showed where the two are `Equal`.
  pub resolve-merge :
      (j : Pk)
      → lookup j (resolve (merge e from into).0 into)
        ≡ merged_row (lookup j (resolve e into)) (
            lookup j
              (merge_states e.schema.cols
                (state_at_commit e base)
                (resolve e into)
                (resolve e from)
                (mask_since e into base)
                (mask_since e from base)).0)
  unfolding merge_heads
  resolve-merge j = rw merge-after (
      resolve-landed e into tb tb (tb.head_commit ∷ fb.head_commit ∷ []) (resolve e into) merged
        sane found_into (sane.chains into tb found_into) fits
        (λ j. sym (lookup-resolve e into tb j found_into)) (resolve-IsMap e into)
        (merge_heads-IsMap e into from base) j)

  -- In an engine that satisfies the invariant, a clean `Merge` over one merge base, below the last seq,
  -- changes what no branch but the target and no earlier commit shows.
  pub merge_isolated :
      (j : Pk)
      → ((x : Bytes) (r : Branch)
          → lookup x e.branches ≡ some r
          → into ≢ x
          → lookup j (resolve (merge e from into).0 x) ≡ lookup j (resolve e x))
        × ((c : Bytes) (cm : CommitMeta)
            → lookup c e.commits ≡ some cm
            → lookup j (state_at_commit (merge e from into).0 c) ≡ lookup j (state_at_commit e c))
  merge_isolated j = rw merge-after (
      landed_isolated e into tb tb (tb.head_commit ∷ fb.head_commit ∷ []) (resolve e into) merged
        sane found_into (sane.chains into tb found_into) fits
        (λ j. sym (lookup-resolve e into tb j found_into)) (resolve-IsMap e into)
        (merge_heads-IsMap e into from base) j)

-- The engine is the one before, or the result is clean.
abbrev pub IsAllOrNothing : Engine → Engine × Result MergeResult → Type 0
IsAllOrNothing e (e', res) = (e' ≡ e) ⊎ ((mr : MergeResult) × (res ≡ ok mr) × (mr.clean ≡ true))
