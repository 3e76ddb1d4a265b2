-- ===== src/Engine/Recorded.antt =====
-- The commits that the operations of internal/engine/engine.go record: `recordCommit` under a new id,
-- or none.
pub mod Forever
use datagit.Prelude.{
  ℕ, ◌+◌, ◌<◌, ◌≡◌, ◌⊎◌, ◌≢◌, ◌∙◌, refl, false, none, some, List, [], ◌∷◌, Bytes, bytes_beq,
  bytes_beq_iff, bytes_eq, arith, Bool-cases, Option-cases, inl, inr,
}
use datagit.Maps.{Map, lookup, put, lookup-put}
use datagit.Core.Change.{ChangeSet, Schema, Table, sorted}
use datagit.Engine.State.{Branch, CommitMeta, Engine, commit_name, root_branch, new}
use datagit.Engine.Commit.{commit, create_branch, advance}
use datagit.Engine.Ancestry.{merge_base}
use datagit.Engine.Merging.{
  merge, merge_at, merge_heads, is_clean, apply_merge_result, update_from_parent, absorb,
  advance_fork,
}
use datagit.Engine.Sessions.{
  open_session, session_write, commit_session, abandon_session, find_open, session_view,
  stage_changes,
}
use datagit.Engine.Commit.Branching.{new-IsSane}
use datagit.Engine.Publish.Invariant.{commit_name-injective}
use datagit.Engine.Passes.Calls.{
  Call, to_commit, to_branch, to_merge, to_update, to_open, to_write, to_land, to_abandon, perform,
  perform_all,
}

-- The commits before and after an operation: the same, or one more under the next id.
abbrev pub IsStep : Engine → Engine → Type 0
IsStep e e' =
    ((e'.commits ≡ e.commits) × (e'.next_id ≡ e.next_id))
    ⊎ ((cm : CommitMeta) × (e'.commits ≡ put (commit_name (e.next_id + 1)) cm e.commits)
        × (e'.next_id ≡ e.next_id + 1))

commit-IsStep : (e : Engine) (branch : Bytes) (cs : ChangeSet) → IsStep e (commit e branch cs).0
unfolding commit advance
commit-IsStep e branch cs = elim (Option-cases (lookup branch e.branches)) [
  | inl absent ↦ rw (absent, commit) (inl (refl, refl))
  | inr (b, found) ↦ rw (found, commit) (inr (_, refl, refl))
]

create_branch-IsStep : (e : Engine) (name from : Bytes) → IsStep e (create_branch e name from).0
unfolding create_branch
create_branch-IsStep e name from = elim (Option-cases (lookup name e.branches)) [
  | inr (b, taken) ↦ rw (taken, create_branch) (inl (refl, refl))
  | inl free ↦ elim (Option-cases (lookup from e.branches)) [
    | inl absent ↦ rw (free, absent, create_branch) (inl (refl, refl))
    | inr (p, found) ↦ rw (free, found, create_branch) (inl (refl, refl))
  ]
]

apply_merge_result-IsStep :
    (branch : Bytes) (b : Branch) (result : Table) (parents : List Bytes) (e : Engine)
    → IsStep e (apply_merge_result branch b result parents e).0
unfolding apply_merge_result advance
apply_merge_result-IsStep branch b result parents e = inr (_, refl, refl)

merge_at-IsStep :
    (e : Engine) (from : Bytes) (fb : Branch) (into : Bytes) (tb : Branch) (base : Bytes)
    → IsStep e (merge_at e from fb into tb base).0
unfolding merge_at
merge_at-IsStep e from fb into tb base =
    elim (Bool-cases (is_clean (merge_heads e into from base).1)) [
      | inl clean ↦
          rw (clean, merge_at)
            (apply_merge_result-IsStep into tb (merge_heads e into from base).0
              (tb.head_commit ∷ fb.head_commit ∷ []) e)
      | inr dirty ↦ rw (dirty, merge_at) (inl (refl, refl))
    ]

merge_over-IsStep :
    (e : Engine) (from : Bytes) (fb : Branch) (into : Bytes) (tb : Branch) (bases : List Bytes)
    → lookup from e.branches ≡ some fb
    → lookup into e.branches ≡ some tb
    → merge_base e.commits tb.head_commit fb.head_commit ≡ bases
    → IsStep e (merge e from into).0
unfolding merge
merge_over-IsStep e from fb into tb [] ff ft eq = rw (ff, ft, eq, merge) (inl (refl, refl))
merge_over-IsStep e from fb into tb (base ∷ []) ff ft eq =
    rw (ff, ft, eq, merge) (merge_at-IsStep e from fb into tb base)
merge_over-IsStep e from fb into tb (base ∷ (other ∷ bases)) ff ft eq =
    rw (ff, ft, eq, merge) (inl (refl, refl))

merge-IsStep : (e : Engine) (from into : Bytes) → IsStep e (merge e from into).0
unfolding merge
merge-IsStep e from into = elim (Option-cases (lookup from e.branches)) [
  | inl absent ↦ rw (absent, merge) (inl (refl, refl))
  | inr (fb, ff) ↦ elim (Option-cases (lookup into e.branches)) [
    | inl absent ↦ rw (ff, absent, merge) (inl (refl, refl))
    | inr (tb, ft) ↦ merge_over-IsStep e from fb into tb _ ff ft refl
  ]
]

absorb-IsStep : (e : Engine) (branch : Bytes) (b p : Branch) → IsStep e (absorb e branch b p).0
unfolding absorb
absorb-IsStep e branch b p =
    let merged = merge_heads e branch b.parent b.fork_commit in
    let moved = advance_fork b p in
    elim (Bool-cases (is_clean merged.1)) [
      | inl clean ↦
          rw (clean, absorb)
            (apply_merge_result-IsStep branch moved merged.0 (b.head_commit ∷ p.head_commit ∷ [])
              (record e { branches = put branch moved e.branches }))
      | inr dirty ↦ rw (dirty, absorb) (inl (refl, refl))
    ]

update_at-IsStep :
    (e : Engine) (branch : Bytes) (b p : Branch)
    → lookup branch e.branches ≡ some b
    → bytes_beq b.parent [] ≡ false
    → lookup b.parent e.branches ≡ some p
    → IsStep e (update_from_parent e branch).0
unfolding update_from_parent
update_at-IsStep e branch b p found named parent =
    elim (Bool-cases (bytes_beq p.head_commit b.fork_commit)) [
      | inl still ↦ rw (found, named, parent, still, update_from_parent) (inl (refl, refl))
      | inr moved ↦
          rw (found, named, parent, moved, update_from_parent) (absorb-IsStep e branch b p)
    ]

update_from_parent-IsStep : (e : Engine) (branch : Bytes) → IsStep e (update_from_parent e branch).0
unfolding update_from_parent
update_from_parent-IsStep e branch = elim (Option-cases (lookup branch e.branches)) [
  | inl absent ↦ rw (absent, update_from_parent) (inl (refl, refl))
  | inr (b, found) ↦ elim (Bool-cases (bytes_beq b.parent [])) [
    | inl root ↦ rw (found, root, update_from_parent) (inl (refl, refl))
    | inr named ↦ elim (Option-cases (lookup b.parent e.branches)) [
      | inl absent ↦ rw (found, named, absent, update_from_parent) (inl (refl, refl))
      | inr (p, parent) ↦ update_at-IsStep e branch b p found named parent
    ]
  ]
]

open_session-IsStep : (e : Engine) (branch : Bytes) → IsStep e (open_session e branch).0
unfolding open_session
open_session-IsStep e branch = elim (Option-cases (lookup branch e.branches)) [
  | inl absent ↦ rw (absent, open_session) (inl (refl, refl))
  | inr (b, found) ↦ elim (Bool-cases (bytes_beq branch root_branch)) [
    | inl root ↦ rw (found, root, open_session) (inl (refl, refl))
    | inr other ↦ rw (found, other, open_session) (inl (refl, refl))
  ]
]

session_write-IsStep :
    (e : Engine) (sid : Bytes) (cs : ChangeSet) → IsStep e (session_write e sid cs).0
unfolding session_write
session_write-IsStep e sid cs = elim (Option-cases (find_open e sid)) [
  | inl absent ↦ rw (absent, session_write) (inl (refl, refl))
  | inr (s, found) ↦
      elim (Option-cases (
        stage_changes e.schema.cols sid s.branch (lookup s.branch e.branches) (sorted cs)
          (e.rows, session_view e sid s))) [
            | inl panic ↦ rw (found, panic, session_write) (inl (refl, refl))
            | inr (staged, done) ↦ rw (found, done, session_write) (inl (refl, refl))
          ]
]

commit_session-IsStep : (e : Engine) (sid : Bytes) → IsStep e (commit_session e sid).0
unfolding commit_session advance
commit_session-IsStep e sid = elim (Option-cases (find_open e sid)) [
  | inl absent ↦ rw (absent, commit_session) (inl (refl, refl))
  | inr (s, found) ↦ elim (Option-cases (lookup s.branch e.branches)) [
    | inl absent ↦ rw (found, absent, commit_session) (inl (refl, refl))
    | inr (b, there) ↦ elim (Bool-cases (bytes_beq b.head_commit s.base)) [
      | inr moved ↦ rw (found, there, moved, commit_session) (inl (refl, refl))
      | inl still ↦ rw (found, there, still, commit_session) (inr (_, refl, refl))
    ]
  ]
]

abandon_session-IsStep : (e : Engine) (sid : Bytes) → IsStep e (abandon_session e sid)
unfolding abandon_session
abandon_session-IsStep e sid = elim (Option-cases (lookup sid e.sessions)) [
  | inl absent ↦ rw (absent, abandon_session) (inl (refl, refl))
  | inr (s, found) ↦ rw (found, abandon_session) (inl (refl, refl))
]

pub perform-IsStep : (call : Call) (e : Engine) → IsStep e (perform call e)
unfolding perform
perform-IsStep (to_commit branch cs) e = commit-IsStep e branch cs
perform-IsStep (to_branch name from) e = create_branch-IsStep e name from
perform-IsStep (to_merge from into) e = merge-IsStep e from into
perform-IsStep (to_update branch) e = update_from_parent-IsStep e branch
perform-IsStep (to_open branch) e = open_session-IsStep e branch
perform-IsStep (to_write sid cs) e = session_write-IsStep e sid cs
perform-IsStep (to_land sid) e = commit_session-IsStep e sid
perform-IsStep (to_abandon sid) e = abandon_session-IsStep e sid
