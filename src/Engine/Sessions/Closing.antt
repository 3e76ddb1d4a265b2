-- ===== src/Engine/Sessions/Closing.antt =====
-- The life of a session of internal/engine/engine.go: open, then committed or abandoned.
use datagit.Prelude.{
  ◌≡◌, refl, false, none, some, Bytes, bytes_eq, bytes_beq, bytes_beq_iff, arith, Option-cases,
  Bool-cases, inl, inr, ok, err, no_session,
}
use datagit.Maps.{Map, lookup, put, lookup-put}
use datagit.Core.Change.{ChangeSet}
use datagit.Engine.State.{Engine, Session}
use datagit.Engine.Sessions.{find_open, session_write, commit_session, abandon_session}

-- `SessionWrite` and `CommitSession` fail for the session and leave the engine as it is.
abbrev pub IsOver : Engine → Bytes → Type 0
IsOver e sid =
    ((cs : ChangeSet) → session_write e sid cs ≡ (e, err no_session))
    × (commit_session e sid ≡ (e, err no_session))

closed-IsOver : (e : Engine) (sid : Bytes) → find_open e sid ≡ none → IsOver e sid
unfolding session_write commit_session
closed-IsOver e sid h = ((λ cs. rw (h, session_write) refl), rw (h, commit_session) refl)

closed_find :
    (e : Engine) (sid : Bytes) (s : Session)
    → lookup sid e.sessions ≡ some s
    → s.is_open ≡ false
    → find_open e sid ≡ none
unfolding find_open
closed_find e sid s found h = rw (found, find_open) (rw h refl)

-- The session is known as a closed one.
close_found :
    (sid : Bytes) (s : Session) (m : Map Bytes Session)
    → lookup sid (put sid (record s { is_open = false }) m) ≡ some (record s { is_open = false })
close_found sid s m =
    ground (arith, lookup-put sid sid (record s { is_open = false }) m, bytes_beq_iff sid sid)

put_find :
    (e : Engine) (sid : Bytes) (s : Session)
    → find_open (record e { sessions = put sid (record s { is_open = false }) e.sessions }) sid
      ≡ none
put_find e sid s =
    closed_find (record e { sessions = put sid (record s { is_open = false }) e.sessions }) sid
      (record s { is_open = false }) (close_found sid s e.sessions) refl

absent_find : (e : Engine) (sid : Bytes) → lookup sid e.sessions ≡ none → find_open e sid ≡ none
unfolding find_open
absent_find e sid h = rw (h, find_open) refl

-- After AbandonSession, SessionWrite and CommitSession fail for the session and change nothing.
pub abandon_session-IsOver : (e : Engine) (sid : Bytes) → IsOver (abandon_session e sid) sid
unfolding abandon_session
abandon_session-IsOver e sid = elim (Option-cases (lookup sid e.sessions)) [
  | inl absent ↦ rw (absent, abandon_session) (closed-IsOver e sid (absent_find e sid absent))
  | inr (s, found) ↦
      rw (found, abandon_session)
        (closed-IsOver _ sid (closed_find _ sid _ (close_found sid s e.sessions) refl))
]

commit_session-find_open :
    (e : Engine) (sid id : Bytes)
    → (commit_session e sid).1 ≡ ok id
    → find_open (commit_session e sid).0 sid ≡ none
unfolding commit_session find_open
commit_session-find_open e sid id = elim (Option-cases (find_open e sid)) [
  | inl closed ↦ rw (closed, commit_session) (λ h. closed)
  | inr (s, opened) ↦ elim (Option-cases (lookup s.branch e.branches)) [
    | inl missing ↦ rw (opened, commit_session) (rw (missing, commit_session) (λ h. ground arith))
    | inr (b, found) ↦ elim (Bool-cases (bytes_beq b.head_commit s.base)) [
      | inl same ↦
          rw (opened, commit_session)
            (rw (found, commit_session) (rw (same, commit_session) (λ h. put_find e sid s)))
      | inr moved ↦
          rw (opened, commit_session)
            (rw (found, commit_session) (rw (moved, commit_session) (λ h. ground arith)))
    ]
  ]
]

-- After a CommitSession that succeeds, SessionWrite and CommitSession fail for the session and change
-- nothing.
pub commit_session-IsOver :
    (e : Engine) (sid id : Bytes)
    → (commit_session e sid).1 ≡ ok id
    → IsOver (commit_session e sid).0 sid
commit_session-IsOver e sid id h =
    closed-IsOver (commit_session e sid).0 sid (commit_session-find_open e sid id h)
