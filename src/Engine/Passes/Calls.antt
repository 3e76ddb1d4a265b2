-- ===== src/Engine/Passes/Calls.antt =====
-- Calls of every operation of internal/engine/engine.go that changes state, in any order.
use datagit.Prelude.{
  ◌+◌, Option, false, List, [], ◌∷◌, Bytes, bytes_beq, bytes_eq, bytes_ltb, insertion_sort,
  Bool-cases, Option-cases, inl, inr,
}
use datagit.Maps.{lookup}
use datagit.Core.Change.{ChangeSet, Schema, Table, sorted}
use datagit.Engine.State.{Version, Engine, root_branch, new}
use datagit.Engine.Commit.{commit, create_branch, advance}
use datagit.Engine.Merging.{merge, update_from_parent}
use datagit.Engine.Sessions.{
  session_name, open_session, session_write, commit_session, abandon_session, find_open,
  session_view, stage_changes, staged_keys,
}
use datagit.Engine.Passes.{
  IsRowInvariant, AllRows, stage_changes-AllRows, close_all-AllRows, stamp-AllRows,
  drop_staged-AllRows,
}
use datagit.Engine.Passes.Kept.{
  put-AreOff, session_name_named, find_open-lookup, no_sessions, IsKept, commit-IsKept,
  create_branch-IsKept, merge-IsKept, update_from_parent-IsKept,
}

-- One call of a client, of any operation that changes state.
pub data Call : Type 0 where
  to_commit : Bytes → ChangeSet → Call
  to_branch : Bytes → Bytes → Call
  to_merge : Bytes → Bytes → Call
  to_update : Bytes → Call
  to_open : Bytes → Call
  to_write : Bytes → ChangeSet → Call
  to_land : Bytes → Call
  to_abandon : Bytes → Call

unfoldable pub perform : Call → Engine → Engine
perform (to_commit branch cs) e = (commit e branch cs).0
perform (to_branch name from) e = (create_branch e name from).0
perform (to_merge from into) e = (merge e from into).0
perform (to_update branch) e = (update_from_parent e branch).0
perform (to_open branch) e = (open_session e branch).0
perform (to_write sid cs) e = (session_write e sid cs).0
perform (to_land sid) e = (commit_session e sid).0
perform (to_abandon sid) e = abandon_session e sid

unfoldable pub perform_all : List Call → Engine → Engine
unfolding perform
perform_all [] e = e
perform_all (call ∷ calls) e = perform_all calls (perform call e)

module _ (P : Version → Type 0) where
  open_session-IsKept :
      (e : Engine) (branch : Bytes) → IsKept P e → IsKept P (open_session e branch).0
  unfolding open_session
  open_session-IsKept e branch h = elim (Option-cases (lookup branch e.branches)) [
    | inl absent ↦ rw (absent, open_session) h
    | inr (b, found) ↦ elim (Bool-cases (bytes_beq branch root_branch)) [
      | inl root ↦ rw (found, root, open_session) h
      | inr other ↦
          rw (found, other, open_session)
            (
              h.0,
              h.1,
              put-AreOff (session_name (e.next_sess + 1)) _ e.sessions
                  (session_name_named (e.next_sess + 1)) other h.2,
            )
    ]
  ]

  session_write-IsKept :
      (e : Engine) (sid : Bytes) (cs : ChangeSet) → IsKept P e → IsKept P (session_write e sid cs).0
  unfolding session_write
  session_write-IsKept e sid cs h = elim (Option-cases (find_open e sid)) [
    | inl absent ↦ rw (absent, session_write) h
    | inr (s, found) ↦
        let off = h.2 sid s (find_open-lookup e sid s found) in
        let b = lookup s.branch e.branches in
        let start : List Version × Option Table = (e.rows, session_view e sid s) in
        elim (Option-cases (stage_changes e.schema.cols sid s.branch b (sorted cs) start)) [
          | inl panic ↦ rw (found, panic, session_write) h
          | inr (out, done) ↦
              rw (found, done, session_write)
                (
                  h.0,
                  stage_changes-AllRows e.schema.cols P h.0 sid s.branch b (sorted cs) start out
                      off.0 off.1 done h.1,
                  h.2,
                )
        ]
  ]

  commit_session-IsKept :
      (e : Engine) (sid : Bytes) → IsKept P e → IsKept P (commit_session e sid).0
  unfolding commit_session advance
  commit_session-IsKept e sid h = elim (Option-cases (find_open e sid)) [
    | inl absent ↦ rw (absent, commit_session) h
    | inr (s, found) ↦ elim (Option-cases (lookup s.branch e.branches)) [
      | inl absent ↦ rw (found, absent, commit_session) h
      | inr (b, there) ↦ elim (Bool-cases (bytes_beq b.head_commit s.base)) [
        | inr moved ↦ rw (found, there, moved, commit_session) h
        | inl still ↦
            let off = h.2 sid s (find_open-lookup e sid s found) in
            let keys = insertion_sort bytes_ltb (staged_keys sid e.rows) in
            rw (found, there, still, commit_session)
              (
                h.0,
                stamp-AllRows e.schema.cols P h.0 sid (e.next_id + 1) (b.head_seq + 1) _ (
                    close_all-AllRows e.schema.cols P h.0 s.branch (b.head_seq + 1) keys e.rows
                      h.1),
                put-AreOff sid (record s { is_open = false }) e.sessions off.0 off.1 h.2,
              )
      ]
    ]
  ]

  abandon_session-IsKept :
      (e : Engine) (sid : Bytes) → IsKept P e → IsKept P (abandon_session e sid)
  unfolding abandon_session
  abandon_session-IsKept e sid h = elim (Option-cases (lookup sid e.sessions)) [
    | inl absent ↦ rw (absent, abandon_session) h
    | inr (s, found) ↦
        let off = h.2 sid s found in
        rw (found, abandon_session)
          (
            h.0,
            drop_staged-AllRows e.schema.cols P h.0 sid e.rows h.1,
            put-AreOff sid (record s { is_open = false }) e.sessions off.0 off.1 h.2,
          )
  ]

  perform-IsKept : (call : Call) (e : Engine) → IsKept P e → IsKept P (perform call e)
  unfolding perform
  perform-IsKept (to_commit branch cs) e h = commit-IsKept P e branch cs h
  perform-IsKept (to_branch name from) e h = create_branch-IsKept P e name from h
  perform-IsKept (to_merge from into) e h = merge-IsKept P e from into h
  perform-IsKept (to_update branch) e h = update_from_parent-IsKept P e branch h
  perform-IsKept (to_open branch) e h = open_session-IsKept e branch h
  perform-IsKept (to_write sid cs) e h = session_write-IsKept e sid cs h
  perform-IsKept (to_land sid) e h = commit_session-IsKept e sid h
  perform-IsKept (to_abandon sid) e h = abandon_session-IsKept e sid h

  perform_all-IsKept :
      (calls : List Call) (e : Engine) → IsKept P e → IsKept P (perform_all calls e)
  unfolding perform_all
  perform_all-IsKept [] e h = h
  perform_all-IsKept (call ∷ calls) e h =
      perform_all-IsKept calls (perform call e) (perform-IsKept call e h)

  -- A property that every operation gives and keeps holds of every version after any calls.
  pub perform_all-AllRows :
      (schema : Schema) (calls : List Call)
      → IsRowInvariant schema.cols P
      → AllRows P (perform_all calls (new schema)).rows
  unfolding new
  perform_all-AllRows schema calls inv =
      (perform_all-IsKept calls (new schema) (inv, tt, no_sessions)).1
