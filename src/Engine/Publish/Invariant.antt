-- ===== src/Engine/Publish/Invariant.antt =====
-- The invariant of an engine of internal/engine/engine.go between operations.
use datagit.Prelude.{
  ℕ, ◌<◌, ◌≤◌, ◌≡◌, ◌∙◌, refl, Option, none, some, List, [], ◌∷◌, Bytes, bytes_beq, bytes_eq,
  if◌then◌else◌, arith, decimal-injective, append_cancel_left, or_else, codes,
}
use datagit.Maps.{Map, lookup, put, lookup-put}
use datagit.Core.Key.{Pk}
use datagit.Engine.State.{Version, Segment, Branch, CommitMeta, Engine, segment, commit_name}
use datagit.Engine.Resolve.{in_segment}
use datagit.Engine.Resolve.Winner.{first, winner}
use datagit.Engine.History.{history, shown_at, first-in_segment}
use datagit.Engine.History.Timeline.{IsTimeline, face}

-- The head of a branch, 0 for one that does not exist.
unfoldable pub seq_of : Map Bytes Branch → Bytes → ℕ
seq_of branches b = elim (lookup b branches) [ none ↦ 0 | some r ↦ r.head_seq ]

-- No segment of the chain is past its branch's head.
abbrev pub IsBounded : Map Bytes Branch → List Segment → Type 0
IsBounded branches [] = Unit
IsBounded branches (seg ∷ chain) = (seg.seq ≤ seq_of branches seg.branch) × IsBounded branches chain

-- The branch shows what its head commit shows.
abbrev pub HasHead : Engine → Bytes → Branch → Type 0
HasHead e b r =
    (cm : CommitMeta) × (lookup r.head_commit e.commits ≡ some cm)
    × ((j : Pk)
        → face (winner e.rows (segment b r.head_seq ∷ r.chain) j) ≡ face (winner e.rows cm.chain j))

pub record IsSane (e : Engine) : Type 0 where
  pub timelines : (b : Bytes) (j : Pk) → IsTimeline 1 (seq_of e.branches b) (history b j e.rows)
  pub chains :
      (b : Bytes) (r : Branch) → lookup b e.branches ≡ some r → IsBounded e.branches r.chain
  pub commit_chains :
      (id : Bytes) (cm : CommitMeta) → lookup id e.commits ≡ some cm → IsBounded e.branches cm.chain
  pub heads : (b : Bytes) (r : Branch) → lookup b e.branches ≡ some r → HasHead e b r
  pub fresh : (n : ℕ) → e.next_id < n → lookup (commit_name n) e.commits ≡ none

-- What the rows become when a branch moves to a new seq: no earlier read changes, and histories stay
-- timelines.
pub record IsExtension (branches : Map Bytes Branch) (branch : Bytes) (at : ℕ)
    (rows rows' : List Version) : Type 0 where
  pub keeps :
      (b : Bytes) (j : Pk) (s : ℕ)
      → s ≤ seq_of branches b
      → face (shown_at s (history b j rows')) ≡ face (shown_at s (history b j rows))
  pub timelines :
      (b : Bytes) (j : Pk)
      → IsTimeline 1 (if bytes_beq branch b then at else seq_of branches b) (history b j rows')

pub face-or_else : (a b : Option Version) → face (or_else a b) ≡ or_else (face a) (face b)
face-or_else none b = refl
face-or_else (some v) b = refl

pub face-winner :
    (rows : List Version) (seg : Segment) (chain : List Segment) (j : Pk)
    → face (winner rows (seg ∷ chain) j)
      ≡ or_else (face (shown_at seg.seq (history seg.branch j rows))) (face (winner rows chain j))
unfolding winner
face-winner rows seg chain j =
    face-or_else (first (in_segment seg) j rows) (winner rows chain j)
    ∙ rw (first-in_segment seg j rows)

module _ {branches : Map Bytes Branch} {branch : Bytes} {at : ℕ} {rows rows' : List Version}
    (ext : IsExtension branches branch at rows rows') where
  -- A bounded chain shows what it showed.
  pub winner_old :
      (chain : List Segment) (j : Pk)
      → IsBounded branches chain
      → face (winner rows' chain j) ≡ face (winner rows chain j)
  winner_old [] j h = unfold winner in refl
  winner_old (seg ∷ chain) j h = ground (
    arith,
    face-winner rows' seg chain j,
    face-winner rows seg chain j,
    ext.keeps seg.branch j seg.seq h.0,
    winner_old chain j h.1,
  )

pub seq_of-put :
    (branches : Map Bytes Branch) (branch : Bytes) (b : Branch) (x : Bytes)
    → seq_of (put branch b branches) x
      ≡ (if bytes_beq branch x then b.head_seq else seq_of branches x)
unfolding seq_of
seq_of-put branches branch b x = ground (arith, lookup-put x branch b branches)

-- Bounds stay where heads only grow.
pub IsBounded-mono :
    (old new : Map Bytes Branch) (chain : List Segment)
    → ((x : Bytes) → seq_of old x ≤ seq_of new x)
    → IsBounded old chain
    → IsBounded new chain
IsBounded-mono old new [] grow h = tt
IsBounded-mono old new (seg ∷ chain) grow h =
    (omega (arith, grow seg.branch), IsBounded-mono old new chain grow h.1)

pub commit_name-injective : (n m : ℕ) → commit_name n ≡ commit_name m → n ≡ m
unfolding commit_name
commit_name-injective n m e = decimal-injective n m (append_cancel_left (codes "c") e)
