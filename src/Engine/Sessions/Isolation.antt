-- ===== src/Engine/Sessions/Isolation.antt =====
-- Staged rows of internal/engine/engine.go and the reads outside their session.
use datagit.Prelude.{
  ℕ, ◌≡◌, ◌∙◌, refl, ap, sym, false, Option, none, some, List, [], ◌∷◌, Bytes, bytes_eq, bytes_beq,
  bytes_beq_iff, arith, Bool-cases, ◌||◌, Option-cases, inl, inr,
}
use mathlib.Core.Option.{some-injective}
use datagit.Maps.{lookup}
use datagit.Maps.Collect.{bind-eq-some}
use datagit.Core.Mask.{ColId}
use datagit.Core.Row.{Row}
use datagit.Core.Key.{Pk}
use datagit.Core.Change.{Change, ChangeSet, Table, sorted}
use datagit.Engine.State.{Version, Segment, Engine, chain_for, Branch}
use datagit.Engine.Resolve.{in_segment, resolve, resolve_chain, state_at_commit}
use datagit.Engine.Resolve.Winner.{first, winner}
use datagit.Engine.Commit.Effect.{show, lookup-chain}
use datagit.Engine.History.Timeline.{face}
use datagit.Engine.Sessions.{
  is_staged, upsert, stage, staged_version, stage_changes, find_open, session_write, session_view,
  view_row, next_seq, put_view, has_staged, is_live_branch, drop_staged, abandon_session,
}

-- No committed read tells the rows apart.
abbrev pub LooksAlike : List Version → List Version → Type 0
LooksAlike new old =
    (seg : Segment) (j : Pk) → first (in_segment seg) j new ≡ first (in_segment seg) j old

winner-LooksAlike :
    (new old : List Version) (chain : List Segment) (j : Pk)
    → LooksAlike new old
    → winner new chain j ≡ winner old chain j
unfolding winner
winner-LooksAlike new old [] j h = refl
winner-LooksAlike new old (seg ∷ chain) j h = rw (h seg j, winner-LooksAlike new old chain j h) refl

chain-LooksAlike :
    (new old : List Version) (chain : List Segment) (j : Pk)
    → LooksAlike new old
    → lookup j (resolve_chain new chain []) ≡ lookup j (resolve_chain old chain [])
chain-LooksAlike new old chain j h =
    lookup-chain new chain j
    ∙ ap (λ (o : Option Version). show (face o)) (winner-LooksAlike new old chain j h)
    ∙ sym (lookup-chain old chain j)

-- Every committed read of the two engines is the same.
abbrev pub SameReads : Engine → Engine → Type 0
SameReads e e' =
    ((x : Bytes) (j : Pk) → lookup j (resolve e' x) ≡ lookup j (resolve e x))
    × ((id : Bytes) (j : Pk) → lookup j (state_at_commit e' id) ≡ lookup j (state_at_commit e id))

rows-SameReads :
    (e : Engine) (rows : List Version)
    → LooksAlike rows e.rows
    → SameReads e (record e { rows = rows })
unfolding resolve state_at_commit
rows-SameReads e rows h = (
  (λ x j. elim (Option-cases (lookup x e.branches)) [
    | inl absent ↦ rw (absent, resolve) refl
    | inr (b, found) ↦
        rw (found, resolve) (chain-LooksAlike rows e.rows (chain_for e.branches x b.head_seq) j h)
  ]),
  (λ id j. elim (Option-cases (lookup id e.commits)) [
    | inl absent ↦ rw (absent, state_at_commit) refl
    | inr (cm, known) ↦ rw (known, state_at_commit) (chain-LooksAlike rows e.rows cm.chain j h)
  ]),
)

upsert-LooksAlike :
    (v : Version) (rows : List Version)
    → bytes_beq v.session [] ≡ false
    → LooksAlike (upsert v rows) rows
unfolding upsert first in_segment is_staged
upsert-LooksAlike v [] h seg j = ground arith
upsert-LooksAlike v (w ∷ rows) h seg j = ground (
  arith,
  upsert-LooksAlike v rows h seg j,
  bytes_beq_iff w.session v.session,
  bytes_beq_iff w.session [],
  bytes_beq_iff v.session [],
)

drop_staged-LooksAlike :
    (sid : Bytes) (rows : List Version)
    → bytes_beq sid [] ≡ false
    → LooksAlike (drop_staged sid rows) rows
unfolding drop_staged first in_segment
drop_staged-LooksAlike sid [] h seg j = refl
drop_staged-LooksAlike sid (w ∷ rows) h seg j = ground (
  arith,
  drop_staged-LooksAlike sid rows h seg j,
  bytes_beq_iff w.session sid,
  bytes_beq_iff w.session [],
  bytes_beq_iff sid [],
)

staged_session :
    (cols : List ColId) (sid branch : Bytes) (seq : ℕ) (before : Option Row) (ch : Change)
    (v : Version)
    → staged_version cols sid branch seq before ch ≡ some v
    → v.session ≡ sid
unfolding staged_version
staged_session cols sid branch seq before ch v h = ground arith

-- What a round that does not panic leaves in the rows.
pub stage-rows :
    (b : Option Branch) (v : Version) (acc out : List Version × Option Table)
    → stage b (some v) acc ≡ some out
    → out.0 ≡ upsert v acc.0
unfolding stage
stage-rows b v (rows, view) out done =
    elim (Bool-cases (is_live_branch b || has_staged v.session v.pk rows)) [
      | inr panic ↦ cc (rw panic at done)
      | inl fine ↦
          let (next, viewed, made) =
            bind-eq-some {B = List Version × Option Table} (put_view v view)
              (λ next. some (upsert v rows, next)) (rw fine at done) in
          ap (λ (o : List Version × Option Table). o.0) (sym (some-injective _ _ made))
    ]

stage-LooksAlike :
    (b : Option Branch) (o : Option Version) (acc out : List Version × Option Table)
    → ((v : Version) → o ≡ some v → bytes_beq v.session [] ≡ false)
    → stage b o acc ≡ some out
    → LooksAlike out.0 acc.0
unfolding stage
stage-LooksAlike b none acc out h done seg j = rw (some-injective acc out done) refl
stage-LooksAlike b (some v) acc out h done seg j =
    ap (first (in_segment seg) j) (stage-rows b v acc out done)
    ∙ upsert-LooksAlike v acc.0 (h v refl) seg j

stage_changes-LooksAlike :
    (cols : List ColId) (sid branch : Bytes) (b : Option Branch) (chs : List Change)
    (acc out : List Version × Option Table)
    → bytes_beq sid [] ≡ false
    → stage_changes cols sid branch b chs acc ≡ some out
    → LooksAlike out.0 acc.0
unfolding stage_changes
stage_changes-LooksAlike cols sid branch b [] acc out h done seg j =
    rw (some-injective acc out done) refl
stage_changes-LooksAlike cols sid branch b (ch ∷ chs) acc out h done seg j =
    let o = staged_version cols sid branch (next_seq b) (view_row acc.1 ch.pk) ch in
    let (mid, first_round, more) =
      bind-eq-some (stage b o acc) (stage_changes cols sid branch b chs) done in
    stage_changes-LooksAlike cols sid branch b chs mid out h more seg j
    ∙ stage-LooksAlike b o acc mid
        (λ v e. rw (staged_session cols sid branch (next_seq b) (view_row acc.1 ch.pk) ch v e) h)
        first_round seg j

-- `SessionWrite`, for a session with an id, changes what no branch and no commit shows.
pub session_write-SameReads :
    (e : Engine) (sid : Bytes) (cs : ChangeSet)
    → bytes_beq sid [] ≡ false
    → SameReads e (session_write e sid cs).0
unfolding session_write
session_write-SameReads e sid cs h = elim (Option-cases (find_open e sid)) [
  | inl closed ↦ rw (closed, session_write) ((λ x j. refl), (λ id j. refl))
  | inr (s, found) ↦
      let staged =
        stage_changes e.schema.cols sid s.branch (lookup s.branch e.branches) (sorted cs)
          (e.rows, session_view e sid s) in
      elim (Option-cases staged) [
        | inl panic ↦ rw (found, panic, session_write) ((λ x j. refl), (λ id j. refl))
        | inr (out, done) ↦
            rw (found, done, session_write)
              (rows-SameReads e out.0 (
                stage_changes-LooksAlike e.schema.cols sid s.branch (lookup s.branch e.branches)
                  (sorted cs) (e.rows, session_view e sid s) out h done))
      ]
]

-- `AbandonSession`, for a session with an id, changes what no branch and no commit shows.
pub abandon_session-SameReads :
    (e : Engine) (sid : Bytes) → bytes_beq sid [] ≡ false → SameReads e (abandon_session e sid)
unfolding abandon_session resolve state_at_commit
abandon_session-SameReads e sid h = elim (Option-cases (lookup sid e.sessions)) [
  | inl absent ↦ rw (absent, abandon_session) ((λ x j. refl), (λ id j. refl))
  | inr (s, found) ↦
      rw (found, abandon_session)
        (rows-SameReads e (drop_staged sid e.rows) (drop_staged-LooksAlike sid e.rows h))
]
