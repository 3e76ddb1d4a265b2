-- ===== src/Model/Sessions.antt =====
-- The sessions of internal/model/model.go, where each holds its own table.
use datagit.Prelude.{
  ◌+◌, true, false, not, Option, none, some, [], ◌∷◌, Bytes, bytes_beq, bytes_eq, if◌then◌else◌,
  Result, ok, err, no_branch, no_session, on_root, branch_moved, nil_pointer,
}
use datagit.Maps.{lookup, put}
use datagit.Core.Change.{ChangeSet, Table}
use datagit.Engine.State.{root_branch, commit_name}
use datagit.Engine.Sessions.{session_name}
use datagit.Model.State.{Session, Repo}
use datagit.Model.Commit.{apply, publish}

-- `OpenSession`
unfoldable pub open_session : Repo → Bytes → Repo × Result Bytes
unfolding session_name
open_session r branch = elim (lookup branch r.branches) [
  | none ↦ (r, err no_branch)
  | some b ↦
      if bytes_beq branch root_branch then (r, err on_root) else elim (lookup b.head r.commits) [
        | none ↦ (r, err nil_pointer)
        | some head ↦
            let id = session_name (r.next_sess + 1) in
            (
              record r {
                next_sess = r.next_sess + 1;
                sessions =
                    put id
                      (record {
                        id = id;
                        branch = branch;
                        base = b.head;
                        overlay = head.state;
                        is_open = true;
                      })
                      r.sessions;
              },
              ok id,
            )
      ]
]

-- `s, ok := r.sessions[sid]; !ok || !s.Open`
unfoldable pub find_open : Repo → Bytes → Option Session
find_open r sid = elim (lookup sid r.sessions) [
  | none ↦ none
  | some s ↦ if s.is_open then some s else none
]

-- `SessionWrite`
unfoldable pub session_write : Repo → Bytes → ChangeSet → Repo × Result (Unit {0})
unfolding find_open apply
session_write r sid cs = elim (find_open r sid) [
  | none ↦ (r, err no_session)
  | some s ↦ (
    record r { sessions = put sid (record s { overlay = apply s.overlay cs }) r.sessions },
    ok tt,
  )
]

-- `SessionResolve`
unfoldable pub session_resolve : Repo → Bytes → Table
unfolding find_open
session_resolve r sid = elim (find_open r sid) [ none ↦ [] | some s ↦ s.overlay ]

-- `CommitSession`
unfoldable pub commit_session : Repo → Bytes → Repo × Result Bytes
unfolding find_open publish
commit_session r sid = elim (find_open r sid) [
  | none ↦ (r, err no_session)
  | some s ↦ elim (lookup s.branch r.branches) [
    | none ↦ (r, err nil_pointer)
    | some b ↦
        if not (bytes_beq b.head s.base)
        then (r, err branch_moved)
        else elim (lookup b.head r.commits) [
          | none ↦ (r, err nil_pointer)
          | some parent ↦
              let moved = publish r s.branch b (b.head ∷ []) (parent.seq + 1) s.overlay in
              (
                record moved { sessions = put sid (record s { is_open = false }) r.sessions },
                ok (commit_name (r.next_id + 1)),
              )
        ]
  ]
]

-- `AbandonSession`
unfoldable pub abandon_session : Repo → Bytes → Repo
abandon_session r sid = elim (lookup sid r.sessions) [
  | none ↦ r
  | some s ↦ record r { sessions = put sid (record s { is_open = false }) r.sessions }
]
