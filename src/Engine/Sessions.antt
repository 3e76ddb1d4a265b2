-- ===== src/Engine/Sessions.antt =====
-- The sessions of internal/engine/engine.go. Sessions name branches that exist, since branches are
-- never removed; where the map has none, the code dereferences a nil pointer. A panic leaves here the
-- engine from before the call.
pub mod Isolation
pub mod Closing
use datagit.Prelude.{
  ℕ, ◌+◌, Bool, true, false, not, ◌&&◌, ◌||◌, Option, none, some, List, [], ◌∷◌, ◌++◌, Bytes, codes,
  decimal, bytes_beq, bytes_eq, bytes_ltb, insertion_sort, if◌then◌else◌, Result, ok, err,
  no_branch, no_session, on_root, branch_moved, nil_pointer,
}
use datagit.Maps.{lookup, put, remove}
use datagit.Maps.Collect.{bind}
use datagit.Core.Mask.{ColId, ColMask}
use datagit.Core.Mask as Mask
use datagit.Core.Row.{Row, mask_of}
use datagit.Core.Key.{Pk}
use datagit.Core.Change.{insert, update, delete, is_delete, Change, ChangeSet, Table, sorted}
use datagit.Engine.State.{Version, Session, Branch, Engine, max_seq, root_branch, commit_name}
use datagit.Engine.Resolve.{resolve_chain}
use datagit.Engine.Commit.{row_or_nil, is_live, close_open, advance}

-- The id that `OpenSession` gives where `nextSess` has become `n`.
unfoldable pub session_name : ℕ → Bytes
session_name n = codes "s" ++ decimal n

-- `OpenSession`
unfoldable pub open_session : Engine → Bytes → Engine × Result Bytes
unfolding session_name
open_session e branch = elim (lookup branch e.branches) [
  | none ↦ (e, err no_branch)
  | some b ↦
      if bytes_beq branch root_branch
      then (e, err on_root)
      else (let id = session_name (e.next_sess + 1) in
          (
            record e {
              next_sess = e.next_sess + 1;
              sessions =
                  put id
                    (record {
                      id = id;
                      branch = branch;
                      base = b.head_commit;
                      base_seq = b.head_seq;
                      is_open = true;
                    })
                    e.sessions;
            },
            ok id,
          ))
]

-- `s, ok := e.sessions[sid]; !ok || !s.Open`
unfoldable pub find_open : Engine → Bytes → Option Session
find_open e sid = elim (lookup sid e.sessions) [
  | none ↦ none
  | some s ↦ if s.is_open then some s else none
]

-- What `SessionResolve` gives for an open session: the chain of the base commit, with the session's
-- own rows before it, and the nil table where the base is not in the map.
unfoldable pub session_view : Engine → Bytes → Session → Option Table
unfolding resolve_chain
session_view e sid s = elim (lookup s.base e.commits) [
  | none ↦ none
  | some cm ↦ some (resolve_chain e.rows cm.chain sid)
]

-- `SessionResolve`: reading the nil table is reading the empty one.
unfoldable pub session_resolve : Engine → Bytes → Table
unfolding find_open session_view
session_resolve e sid = elim (find_open e sid) [
  | none ↦ []
  | some s ↦ elim (session_view e sid s) [ none ↦ [] | some view ↦ view ]
]

-- A row that the session staged for the key.
unfoldable pub is_staged : Bytes → Pk → Version → Bool
is_staged sid pk v = bytes_beq v.session sid && bytes_beq v.pk pk

-- The upsert of `SessionWrite`: the first staged row of the key is changed in place, with its mask
-- widened, and without one the version is appended.
unfoldable pub upsert : Version → List Version → List Version
unfolding is_staged
upsert new [] = new ∷ []
upsert new (v ∷ rows) =
    let rest = upsert new rows in
    if is_staged new.session new.pk v
    then record v { op = new.op; row = new.row; changed = Mask.union v.changed new.changed } ∷ rows
    else v ∷ rest

-- What one round of `SessionWrite` stages; deleting an absent row stages nothing.
unfoldable pub staged_version :
    List ColId → Bytes → Bytes → ℕ → Option Row → Change → Option Version
unfolding row_or_nil
staged_version cols sid branch seq before ch =
    if is_delete ch.op && not (is_live before)
    then none
    else (let row = if is_delete ch.op then none else ch.row in
        some (record {
          branch = branch;
          pk = ch.pk;
          seq_from = seq;
          seq_to = max_seq;
          op = if is_delete ch.op then delete else if is_live before then update else insert;
          commit = [];
          session = sid;
          changed = mask_of (row_or_nil before) row cols;
          row = row;
        }))

-- `found`: the session has staged a row for the key.
unfoldable pub has_staged : Bytes → Pk → List Version → Bool
unfolding is_staged
has_staged sid pk [] = false
has_staged sid pk (v ∷ rows) = is_staged sid pk v || has_staged sid pk rows

-- `view[pk]`, also in the nil table.
unfoldable pub view_row : Option Table → Pk → Option Row
view_row none pk = none
view_row (some view) pk = lookup pk view

-- The end of a round, on the view: `none` is the panic of an assignment to the nil table, from which
-- deleting does nothing.
unfoldable pub put_view : Version → Option Table → Option (Option Table)
put_view v none = if is_delete v.op then some none else none
put_view v (some view) =
    some (some (if is_delete v.op then remove v.pk view else put v.pk v.row view))

-- `b.HeadSeq + 1`, where `b` is not nil.
abbrev pub next_seq : Option Branch → ℕ
next_seq none = 0
next_seq (some b) = b.head_seq + 1

abbrev pub is_live_branch : Option Branch → Bool
is_live_branch none = false
is_live_branch (some b) = true

-- One round: the rows, and the view that the next rounds read. `none` is a panic, of the nil branch
-- where a row is to be appended, or of the nil table.
unfoldable pub stage :
    Option Branch
    → Option Version
    → List Version × Option Table
    → Option (List Version × Option Table)
unfolding upsert has_staged put_view
stage b none acc = some acc
stage b (some v) (rows, view) =
    if is_live_branch b || has_staged v.session v.pk rows
    then bind (put_view v view) (λ next. some (upsert v rows, next))
    else none

-- The loop of `SessionWrite`.
unfoldable pub stage_changes :
    List ColId
    → Bytes
    → Bytes
    → Option Branch
    → List Change
    → List Version × Option Table
    → Option (List Version × Option Table)
unfolding stage staged_version view_row
stage_changes cols sid branch b [] acc = some acc
stage_changes cols sid branch b (ch ∷ chs) acc =
    bind (stage b (staged_version cols sid branch (next_seq b) (view_row acc.1 ch.pk) ch) acc)
      (stage_changes cols sid branch b chs)

-- `SessionWrite`
unfoldable pub session_write : Engine → Bytes → ChangeSet → Engine × Result (Unit {0})
unfolding find_open session_view stage_changes
session_write e sid cs = elim (find_open e sid) [
  | none ↦ (e, err no_session)
  | some s ↦
      elim (stage_changes e.schema.cols sid s.branch (lookup s.branch e.branches) (sorted cs)
        (e.rows, session_view e sid s)) [
          | none ↦ (e, err nil_pointer)
          | some staged ↦ (record e { rows = staged.0 }, ok tt)
        ]
]

-- The keys of the rows that the session staged.
unfoldable pub staged_keys : Bytes → List Version → List Pk
staged_keys sid [] = []
staged_keys sid (v ∷ rows) =
    let rest = staged_keys sid rows in if bytes_beq v.session sid then v.pk ∷ rest else rest

-- `closeOpen` for each staged key. It changes neither the key nor the session of a row.
unfoldable pub close_all : Bytes → ℕ → List Pk → List Version → List Version
unfolding close_open
close_all branch new_seq [] rows = rows
close_all branch new_seq (pk ∷ pks) rows =
    close_all branch new_seq pks (close_open branch pk new_seq rows)

-- The staged rows become committed versions, in place.
unfoldable pub stamp : Bytes → Bytes → ℕ → List Version → List Version
stamp sid id new_seq [] = []
stamp sid id new_seq (v ∷ rows) =
    (if bytes_beq v.session sid
      then record v { session = []; commit = id; seq_from = new_seq; seq_to = max_seq }
      else v)
    ∷ stamp sid id new_seq rows

-- `CommitSession`
unfoldable pub commit_session : Engine → Bytes → Engine × Result Bytes
unfolding find_open staged_keys close_all stamp advance
commit_session e sid = elim (find_open e sid) [
  | none ↦ (e, err no_session)
  | some s ↦ elim (lookup s.branch e.branches) [
    | none ↦ (e, err nil_pointer)
    | some b ↦
        if not (bytes_beq b.head_commit s.base)
        then (e, err branch_moved)
        else (let new_seq = b.head_seq + 1 in
            let id = commit_name (e.next_id + 1) in
            let keys = insertion_sort bytes_ltb (staged_keys sid e.rows) in
            let rows = stamp sid id new_seq (close_all s.branch new_seq keys e.rows) in
            let moved = advance s.branch b new_seq id (b.head_commit ∷ []) rows e in
            (record moved { sessions = put sid (record s { is_open = false }) e.sessions }, ok id))
  ]
]

-- The rows that another session staged or that are committed.
unfoldable pub drop_staged : Bytes → List Version → List Version
drop_staged sid [] = []
drop_staged sid (v ∷ rows) =
    let rest = drop_staged sid rows in if bytes_beq v.session sid then rest else v ∷ rest

-- `AbandonSession`
unfoldable pub abandon_session : Engine → Bytes → Engine
unfolding drop_staged
abandon_session e sid = elim (lookup sid e.sessions) [
  | none ↦ e
  | some s ↦ record e {
    rows = drop_staged sid e.rows;
    sessions = put sid (record s { is_open = false }) e.sessions;
  }
]
