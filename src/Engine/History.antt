-- ===== src/Engine/History.antt =====
-- The versions of one key on one branch, as internal/engine/engine.go's passes over all rows see
-- them, and what writing a version does to them.
pub mod Timeline
pub mod Shown
use mathlib.Core.List.{append-nil}
use datagit.Prelude.{
  ℕ, ◌≡◌, ◌≢◌, ◌∙◌, refl, ap, Bool, true, false, not, ◌&&◌, ◌||◌, Option, none, some, List, [], ◌∷◌,
  ◌++◌, Bytes, bytes_beq, bytes_beq_iff, leb, ltb, nat_beq, if◌then◌else◌, arith, Bool-cases, inl,
  inr,
}
use datagit.Core.Key.{Pk}
use datagit.Engine.State.{Version, Segment, max_seq}
use datagit.Engine.Resolve.{in_segment}
use datagit.Engine.Resolve.Winner.{first}
use datagit.Engine.Commit.{is_open_at, close_open, write_version}

-- A committed version of the key on the branch.
abbrev pub in_history : Bytes → Pk → Version → Bool
in_history branch pk v = bytes_beq v.session [] && bytes_beq v.branch branch && bytes_beq v.pk pk

unfoldable pub history : Bytes → Pk → List Version → List Version
history branch pk [] = []
history branch pk (v ∷ rows) =
    let rest = history branch pk rows in if in_history branch pk v then v ∷ rest else rest

-- The first version whose interval holds the seq.
unfoldable pub shown_at : ℕ → List Version → Option Version
shown_at s [] = none
shown_at s (v ∷ vs) =
    let rest = shown_at s vs in if leb v.seq_from s && ltb s v.seq_to then some v else rest

-- Closes the first open version.
unfoldable pub close_first : ℕ → List Version → List Version
close_first at [] = []
close_first at (v ∷ vs) =
    let rest = close_first at vs in
    if nat_beq v.seq_to max_seq then record v { seq_to = at } ∷ vs else v ∷ rest

pub first-in_segment :
    (seg : Segment) (pk : Pk) (rows : List Version)
    → first (in_segment seg) pk rows ≡ shown_at seg.seq (history seg.branch pk rows)
unfolding first in_segment history shown_at
first-in_segment seg pk [] = refl
first-in_segment seg pk (v ∷ rows) = ground (arith, first-in_segment seg pk rows)

history-close_open :
    (branch : Bytes) (pk : Pk) (at : ℕ) (rows : List Version)
    → history branch pk (close_open branch pk at rows) ≡ close_first at (history branch pk rows)
unfolding history close_open close_first
history-close_open branch pk at [] = refl
history-close_open branch pk at (v ∷ rows) = ground (arith, history-close_open branch pk at rows)

history-close_open_ne :
    (branch : Bytes) (pk : Pk) (at : ℕ) (b : Bytes) (j : Pk) (rows : List Version)
    → (bytes_beq branch b && bytes_beq pk j) ≡ false
    → history b j (close_open branch pk at rows) ≡ history b j rows
unfolding history close_open
history-close_open_ne branch pk at b j [] h = refl
history-close_open_ne branch pk at b j (v ∷ rows) h = ground (
  arith,
  history-close_open_ne branch pk at b j rows h,
  bytes_beq_iff v.branch branch,
  bytes_beq_iff v.branch b,
  bytes_beq_iff branch b,
  bytes_beq_iff v.pk pk,
  bytes_beq_iff v.pk j,
  bytes_beq_iff pk j,
)

history-append :
    (b : Bytes) (j : Pk) (rows : List Version) (v : Version)
    → history b j (rows ++ v ∷ []) ≡ history b j rows ++ (if in_history b j v then v ∷ [] else [])
unfolding history
history-append b j [] v = ground arith
history-append b j (w ∷ rows) v = ground (arith, history-append b j rows v)

-- Writing a committed version closes the open one of its key and branch and adds itself; the
-- history of no other key or branch changes.
pub history-write_version :
    (v : Version) (rows : List Version) (b : Bytes) (j : Pk)
    → v.session ≡ []
    → history b j (write_version v rows) ≡ (
        if bytes_beq v.branch b && bytes_beq v.pk j
        then close_first v.seq_from (history b j rows) ++ v ∷ []
        else history b j rows)
unfolding write_version
history-write_version v rows b j h =
    history-append b j (close_open v.branch v.pk v.seq_from rows) v
    ∙ elim (Bool-cases (bytes_beq v.branch b && bytes_beq v.pk j)) [
      | inl same ↦ ground (
        arith,
        bytes_beq_iff v.session [],
        bytes_beq_iff v.branch b,
        bytes_beq_iff v.pk j,
        history-close_open v.branch v.pk v.seq_from rows,
      )
      | inr other ↦ ground (
        arith,
        append-nil (history b j (close_open v.branch v.pk v.seq_from rows)),
        history-close_open_ne v.branch v.pk v.seq_from b j rows other,
      )
    ]
