-- ===== src/Engine/Passes/Kept.antt =====
-- Properties of all versions, through the operations of internal/engine/engine.go on branches.
use datagit.Prelude.{
  ℕ, ◌+◌, ◌≡◌, refl, false, some, List, [], ◌∷◌, Bytes, bytes_beq, bytes_beq_iff, bytes_eq, arith,
  Bool-cases, Option-cases, inl, inr,
}
use datagit.Maps.{Map, lookup, put, lookup-put}
use datagit.Core.Change.{ChangeSet, Table, table_keys, sorted}
use datagit.Engine.State.{Version, Session, Branch, Engine, commit_name, root_branch}
use datagit.Engine.Resolve.{resolve}
use datagit.Engine.Commit.{commit, create_branch, advance}
use datagit.Engine.Commit.Effect.{commit_changes-planned, planned}
use datagit.Engine.Ancestry.{merge_base}
use datagit.Engine.Merging.{
  merge, merge_at, merge_heads, is_clean, apply_merge_result, update_from_parent, absorb,
  advance_fork,
}
use datagit.Engine.Sessions.{session_name, find_open}
use datagit.Engine.Passes.{
  IsRowInvariant, AllRows, write_all-AllRows, planned-AllRows, put_rows-AllRows,
  delete_rows-AllRows,
}

-- Sessions have an id and are not on the root branch.
abbrev pub AreOff : Map Bytes Session → Type 0
AreOff sessions =
    (sid : Bytes) (s : Session)
    → lookup sid sessions ≡ some s
    → (bytes_beq sid [] ≡ false) × (bytes_beq s.branch root_branch ≡ false)

pub put-AreOff :
    (sid : Bytes) (s : Session) (sessions : Map Bytes Session)
    → bytes_beq sid [] ≡ false
    → bytes_beq s.branch root_branch ≡ false
    → AreOff sessions
    → AreOff (put sid s sessions)
put-AreOff sid s sessions named off h id t found =
    ground (arith, lookup-put id sid s sessions, bytes_beq_iff sid id, h id t)

pub session_name_named : (k : ℕ) → bytes_beq (session_name k) [] ≡ false
unfolding session_name bytes_beq
session_name_named k = refl

pub find_open-lookup :
    (e : Engine) (sid : Bytes) (s : Session)
    → find_open e sid ≡ some s
    → lookup sid e.sessions ≡ some s
unfolding find_open
find_open-lookup e sid s h = ground arith

pub no_sessions : AreOff []
unfolding lookup
no_sessions sid s found = cc

module _ (P : Version → Type 0) where
  abbrev pub IsKept : Engine → Type 0
  IsKept e = IsRowInvariant e.schema.cols P × AllRows P e.rows × AreOff e.sessions

  pub commit-IsKept :
      (e : Engine) (branch : Bytes) (cs : ChangeSet) → IsKept e → IsKept (commit e branch cs).0
  unfolding commit advance
  commit-IsKept e branch cs h = elim (Option-cases (lookup branch e.branches)) [
    | inl absent ↦ rw (absent, commit) h
    | inr (b, found) ↦
        let id = commit_name (e.next_id + 1) in
        rw (found, commit)
          (
            h.0,
            rw
                (commit_changes-planned e.schema.cols branch (b.head_seq + 1) id (resolve e branch)
                  (sorted cs) e.rows)
                (write_all-AllRows e.schema.cols P h.0
                  (planned e.schema.cols branch (b.head_seq + 1) id (resolve e branch) (sorted cs))
                  e.rows
                  (planned-AllRows e.schema.cols P h.0 branch (b.head_seq + 1) (e.next_id + 1)
                    (resolve e branch) (sorted cs))
                  h.1),
            h.2,
          )
  ]

  pub create_branch-IsKept :
      (e : Engine) (name from : Bytes) → IsKept e → IsKept (create_branch e name from).0
  unfolding create_branch
  create_branch-IsKept e name from h = elim (Option-cases (lookup name e.branches)) [
    | inr (b, taken) ↦ rw (taken, create_branch) h
    | inl free ↦ elim (Option-cases (lookup from e.branches)) [
      | inl absent ↦ rw (free, absent, create_branch) h
      | inr (p, found) ↦ rw (free, found, create_branch) h
    ]
  ]

  apply_merge_result-IsKept :
      (branch : Bytes) (b : Branch) (result : Table) (parents : List Bytes) (e : Engine)
      → IsKept e
      → IsKept (apply_merge_result branch b result parents e).0
  unfolding apply_merge_result advance
  apply_merge_result-IsKept branch b result parents e h = (
    h.0,
    delete_rows-AllRows e.schema.cols P h.0 branch (b.head_seq + 1) (e.next_id + 1)
        (resolve e branch) result (table_keys (resolve e branch)) _
        (put_rows-AllRows e.schema.cols P h.0 branch (b.head_seq + 1) (e.next_id + 1)
          (resolve e branch) result (table_keys result) e.rows h.1),
    h.2,
  )

  merge_at-IsKept :
      (e : Engine) (from : Bytes) (fb : Branch) (into : Bytes) (tb : Branch) (base : Bytes)
      → IsKept e
      → IsKept (merge_at e from fb into tb base).0
  unfolding merge_at
  merge_at-IsKept e from fb into tb base h =
      elim (Bool-cases (is_clean (merge_heads e into from base).1)) [
        | inl clean ↦
            rw (clean, merge_at)
              (apply_merge_result-IsKept into tb (merge_heads e into from base).0
                (tb.head_commit ∷ fb.head_commit ∷ []) e h)
        | inr dirty ↦ rw (dirty, merge_at) h
      ]

  merge_over-IsKept :
      (e : Engine) (from : Bytes) (fb : Branch) (into : Bytes) (tb : Branch) (bases : List Bytes)
      → lookup from e.branches ≡ some fb
      → lookup into e.branches ≡ some tb
      → merge_base e.commits tb.head_commit fb.head_commit ≡ bases
      → IsKept e
      → IsKept (merge e from into).0
  unfolding merge
  merge_over-IsKept e from fb into tb [] ff ft eq h = rw (ff, ft, eq, merge) h
  merge_over-IsKept e from fb into tb (base ∷ []) ff ft eq h =
      rw (ff, ft, eq, merge) (merge_at-IsKept e from fb into tb base h)
  merge_over-IsKept e from fb into tb (base ∷ (other ∷ bases)) ff ft eq h = rw (ff, ft, eq, merge) h

  pub merge-IsKept : (e : Engine) (from into : Bytes) → IsKept e → IsKept (merge e from into).0
  unfolding merge
  merge-IsKept e from into h = elim (Option-cases (lookup from e.branches)) [
    | inl absent ↦ rw (absent, merge) h
    | inr (fb, ff) ↦ elim (Option-cases (lookup into e.branches)) [
      | inl absent ↦ rw (ff, absent, merge) h
      | inr (tb, ft) ↦ merge_over-IsKept e from fb into tb _ ff ft refl h
    ]
  ]

  absorb-IsKept :
      (e : Engine) (branch : Bytes) (b p : Branch) → IsKept e → IsKept (absorb e branch b p).0
  unfolding absorb
  absorb-IsKept e branch b p h =
      let merged = merge_heads e branch b.parent b.fork_commit in
      let moved = advance_fork b p in
      elim (Bool-cases (is_clean merged.1)) [
        | inl clean ↦
            rw (clean, absorb)
              (apply_merge_result-IsKept branch moved merged.0 (b.head_commit ∷ p.head_commit ∷ [])
                (record e { branches = put branch moved e.branches }) h)
        | inr dirty ↦ rw (dirty, absorb) h
      ]

  update_at-IsKept :
      (e : Engine) (branch : Bytes) (b p : Branch)
      → lookup branch e.branches ≡ some b
      → bytes_beq b.parent [] ≡ false
      → lookup b.parent e.branches ≡ some p
      → IsKept e
      → IsKept (update_from_parent e branch).0
  unfolding update_from_parent
  update_at-IsKept e branch b p found named parent h =
      elim (Bool-cases (bytes_beq p.head_commit b.fork_commit)) [
        | inl still ↦ rw (found, named, parent, still, update_from_parent) h
        | inr moved ↦
            rw (found, named, parent, moved, update_from_parent) (absorb-IsKept e branch b p h)
      ]

  pub update_from_parent-IsKept :
      (e : Engine) (branch : Bytes) → IsKept e → IsKept (update_from_parent e branch).0
  unfolding update_from_parent
  update_from_parent-IsKept e branch h = elim (Option-cases (lookup branch e.branches)) [
    | inl absent ↦ rw (absent, update_from_parent) h
    | inr (b, found) ↦ elim (Bool-cases (bytes_beq b.parent [])) [
      | inl root ↦ rw (found, root, update_from_parent) h
      | inr named ↦ elim (Option-cases (lookup b.parent e.branches)) [
        | inl absent ↦ rw (found, named, absent, update_from_parent) h
        | inr (p, parent) ↦ update_at-IsKept e branch b p found named parent h
      ]
    ]
  ]
