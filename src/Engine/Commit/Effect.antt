-- ===== src/Engine/Commit/Effect.antt =====
-- The versions that `Commit` of internal/engine/engine.go writes, and what they show.
use datagit.Prelude.{
  ℕ, ◌≡◌, ◌∙◌, refl, Option, none, some, List, [], ◌∷◌, Bytes, bytes_beq, bytes_beq_iff, bytes_eq,
  if◌then◌else◌, arith, inl, inr, Option-cases, or_else,
}
use datagit.Maps.{Map, lookup}
use datagit.Maps.Collect.{bind}
use datagit.Core.Mask.{ColId}
use datagit.Core.Row.{Row}
use datagit.Core.Key.{Pk}
use datagit.Core.Change.{Op, Change, Table, is_delete}
use datagit.Core.Change.Sorted.{find_change, IsDistinct}
use datagit.Engine.State.{Version, Segment, Branch, CommitMeta, Engine, max_seq, segment, chain_for}
use datagit.Engine.Resolve.{live, resolve, resolve_chain, state_at_commit}
use datagit.Engine.Resolve.Winner.{winner, lookup-resolve_chain}
use datagit.Engine.Commit.{next_version, commit_changes, commit_change}
use datagit.Engine.History.Timeline.{face}
use datagit.Engine.Publish.{write_all, written, IsPlan}

-- What a face shows: nothing for a tombstone.
abbrev pub show : Option (Op × Row) → Option Row
show none = none
show (some (op, row)) = if is_delete op then none else some row

pub bind-live : (j : Pk) (o : Option Version) → bind o (live j) ≡ show (face o)
unfolding live
bind-live j none = refl
bind-live j (some v) = refl

pub lookup-chain :
    (rows : List Version) (chain : List Segment) (j : Pk)
    → lookup j (resolve_chain rows chain []) ≡ show (face (winner rows chain j))
unfolding bytes_beq
lookup-chain rows chain j = lookup-resolve_chain rows chain [] j ∙ bind-live j (winner rows chain j)

pub chain_for-found :
    (branches : Map Bytes Branch) (b : Bytes) (r : Branch) (s : ℕ)
    → lookup b branches ≡ some r
    → chain_for branches b s ≡ segment b s ∷ r.chain
unfolding chain_for
chain_for-found branches b r s h = rw (h, chain_for)

pub lookup-resolve :
    (e : Engine) (b : Bytes) (r : Branch) (j : Pk)
    → lookup b e.branches ≡ some r
    → lookup j (resolve e b) ≡ show (face (winner e.rows (segment b r.head_seq ∷ r.chain) j))
unfolding resolve
lookup-resolve e b r j h =
    rw (h, resolve)
      (rw (chain_for-found e.branches b r r.head_seq h)
        (lookup-chain e.rows (segment b r.head_seq ∷ r.chain) j))

pub lookup-state_at_commit :
    (e : Engine) (id : Bytes) (cm : CommitMeta) (j : Pk)
    → lookup id e.commits ≡ some cm
    → lookup j (state_at_commit e id) ≡ show (face (winner e.rows cm.chain j))
unfolding state_at_commit
lookup-state_at_commit e id cm j h = rw (h, state_at_commit) (lookup-chain e.rows cm.chain j)

-- What a change set leaves of a key: the row that it gives, or nothing after a delete.
abbrev pub applied : Option Change → Option Row → Option Row
applied none old = old
applied (some ch) old = if is_delete ch.op then none else some ch.row

module _ (cols : List ColId) (branch : Bytes) (at : ℕ) (id : Bytes) (current : Table) where
  unfoldable pub planned : List Change → List Version
  planned [] = []
  planned (ch ∷ chs) =
      let rest = planned chs in
      elim (next_version cols branch at id (lookup ch.pk current) ch) [
        | none ↦ rest
        | some v ↦ v ∷ rest
      ]

  pub commit_changes-planned :
      (chs : List Change) (rows : List Version)
      → commit_changes cols branch at id current chs rows ≡ write_all (planned chs) rows
  unfolding commit_changes planned write_all
  commit_changes-planned [] rows = refl
  commit_changes-planned (ch ∷ chs) rows =
      let v = next_version cols branch at id (lookup ch.pk current) ch in
      commit_changes-planned chs (commit_change v rows)
      ∙ elim (Option-cases v) [ inl e ↦ rw (e, planned) | inr (w, e) ↦ rw (e, planned) ]

  -- With what the round writes the key shows what the change says, be it that nothing is written.
  pub show-next_version :
      (before : Option Row) (ch : Change) (old : Option (Op × Row))
      → show old ≡ before
      → show (or_else (face (next_version cols branch at id before ch)) old)
        ≡ applied (some ch) before
  unfolding next_version is_delete
  show-next_version before ch old h = ground arith

  next_version_fields :
      (before : Option Row) (ch : Change) (v : Version)
      → next_version cols branch at id before ch ≡ some v
      → (v.branch ≡ branch)
        × (v.session ≡ [])
        × (v.seq_from ≡ at)
        × (v.seq_to ≡ max_seq)
        × (v.pk ≡ ch.pk)
  unfolding next_version
  next_version_fields before ch v h = ground arith

  pub written-planned :
      (chs : List Change) (j : Pk)
      → IsDistinct chs
      → written j (planned chs)
        ≡ bind (find_change j chs) (next_version cols branch at id (lookup j current))
  unfolding written planned find_change
  written-planned [] j d = refl
  written-planned (ch ∷ chs) j d =
      elim (Option-cases (next_version cols branch at id (lookup ch.pk current) ch)) [
        | inl skip ↦
            rw (skip, planned) (ground (arith, written-planned chs j d.1, bytes_beq_iff ch.pk j))
        | inr (v, new) ↦
            let fields = next_version_fields (lookup ch.pk current) ch v new in
            rw (new, planned)
              (ground
                (arith, written-planned chs j d.1, bytes_beq_iff ch.pk j, bytes_beq_iff v.pk j))
      ]

  pub planned-IsPlan : (chs : List Change) → IsDistinct chs → IsPlan branch at (planned chs)
  unfolding planned
  planned-IsPlan [] d = tt
  planned-IsPlan (ch ∷ chs) d =
      elim (Option-cases (next_version cols branch at id (lookup ch.pk current) ch)) [
        | inl skip ↦ rw (skip, planned) (planned-IsPlan chs d.1)
        | inr (v, new) ↦
            let fields = next_version_fields (lookup ch.pk current) ch v new in
            rw (new, planned)
              (
                fields.0,
                fields.1,
                fields.2,
                fields.3,
                written-planned chs v.pk d.1 ∙ rw (fields.4, d.0),
                planned-IsPlan chs d.1,
              )
      ]
