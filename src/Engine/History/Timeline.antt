-- ===== src/Engine/History/Timeline.antt =====
-- The history of a key: intervals that follow one another without gap or overlap, the last one open.
-- This is what `IntervalsSane` and `OpenVersionsPerKey` of internal/engine/engine.go probe.
use datagit.Prelude.{
  ℕ, ◌+◌, ◌≤◌, ◌<◌, ◌≡◌, ◌∙◌, refl, true, false, Option, none, some, List, [], ◌∷◌, ◌++◌, nat_beq,
  arith, Bool-cases, inl, inr,
}
use datagit.Core.Row.{Row}
use datagit.Core.Change.{Op}
use datagit.Engine.State.{Version, max_seq}
use datagit.Engine.History.{shown_at, close_first}

-- The end of a version's interval is where the next begins, or open.
abbrev pub Ends : Version → List Version → Type 0
Ends v [] = v.seq_to ≡ max_seq
Ends v (w ∷ vs) = v.seq_to ≡ w.seq_from

-- Every interval begins after the one before it, from `lo` on, and not after `head`.
abbrev pub IsTimeline : ℕ → ℕ → List Version → Type 0
IsTimeline lo head [] = Unit
IsTimeline lo head (v ∷ vs) =
    (lo ≤ v.seq_from) × (v.seq_from ≤ head) × Ends v vs × IsTimeline (v.seq_from + 1) head vs

-- What a read shows of a version.
abbrev pub image : Version → Op × Row
image v = (v.op, v.row)

abbrev pub face : Option Version → Option (Op × Row)
face none = none
face (some v) = some (image v)

pub IsTimeline-le :
    (lo head at : ℕ) (vs : List Version) → IsTimeline lo head vs → head ≤ at → IsTimeline lo at vs
IsTimeline-le lo head at [] h le = tt
IsTimeline-le lo head at (v ∷ vs) h le =
    (h.0, omega arith, h.2, IsTimeline-le (v.seq_from + 1) head at vs h.3 le)

-- Nothing is seen before the first interval.
pub shown_early :
    (lo head s : ℕ) (vs : List Version) → IsTimeline lo head vs → s < lo → shown_at s vs ≡ none
unfolding shown_at
shown_early lo head s [] h lt = refl
shown_early lo head s (v ∷ vs) h lt = ground (arith, shown_early (v.seq_from + 1) head s vs h.3)

Ends-write :
    (v w : Version) (ws : List Version) (at : ℕ) (new : Version)
    → v.seq_to ≡ w.seq_from
    → Ends v (close_first at (w ∷ ws) ++ new ∷ [])
unfolding close_first
Ends-write v w ws at new h = elim (Bool-cases (nat_beq w.seq_to max_seq)) [
  | inl last ↦ rw (last, close_first) h
  | inr more ↦ rw (more, close_first) h
]

first-le :
    {lo head : ℕ} (w : Version) (ws : List Version)
    → IsTimeline lo head (w ∷ ws)
    → w.seq_from ≤ head
first-le w ws h = h.1

-- Closing the open version and appending the next one extends a timeline.
pub IsTimeline-write :
    (lo head at : ℕ) (vs : List Version) (new : Version)
    → IsTimeline lo head vs
    → lo ≤ at
    → head < at
    → at < max_seq
    → new.seq_from ≡ at
    → new.seq_to ≡ max_seq
    → IsTimeline lo at (close_first at vs ++ new ∷ [])
unfolding close_first
IsTimeline-write lo head at [] new h le lt fits begins ends = ground arith
IsTimeline-write lo head at (v ∷ []) new h le lt fits begins ends =
    let last : nat_beq v.seq_to max_seq ≡ true = ground arith in
    rw (last, close_first) (h.0, omega arith, omega arith, (omega arith, omega arith, ends, tt))
IsTimeline-write lo head at (v ∷ (w ∷ ws)) new h le lt fits begins ends =
    let closed : nat_beq v.seq_to max_seq ≡ false = ground (arith, first-le w ws h.3) in
    rw (closed, close_first)
      (
        h.0,
        omega arith,
        Ends-write v w ws at new h.2,
        IsTimeline-write (v.seq_from + 1) head at (w ∷ ws) new h.3 (omega arith) lt fits begins
            ends,
      )

shown_skip :
    (s : ℕ) (v : Version) (vs : List Version) → v.seq_to ≤ s → shown_at s (v ∷ vs) ≡ shown_at s vs
unfolding shown_at
shown_skip s v vs le = ground arith

-- The new version is shown at its seq.
pub shown_new :
    (lo head at : ℕ) (vs : List Version) (new : Version)
    → IsTimeline lo head vs
    → head < at
    → at < max_seq
    → new.seq_from ≡ at
    → new.seq_to ≡ max_seq
    → shown_at at (close_first at vs ++ new ∷ []) ≡ some new
unfolding close_first shown_at
shown_new lo head at [] new h lt fits begins ends = ground arith
shown_new lo head at (v ∷ []) new h lt fits begins ends = ground arith
shown_new lo head at (v ∷ (w ∷ ws)) new h lt fits begins ends =
    let closed : nat_beq v.seq_to max_seq ≡ false = ground (arith, first-le w ws h.3) in
    rw (closed, close_first)
      (shown_skip at v (close_first at (w ∷ ws) ++ new ∷ []) (omega (arith, first-le w ws h.3))
        ∙ shown_new (v.seq_from + 1) head at (w ∷ ws) new h.3 lt fits begins ends)

shown_end :
    (at s : ℕ) (vs : List Version) (new : Version)
    → s < at
    → new.seq_from ≡ at
    → shown_at s (vs ++ new ∷ []) ≡ shown_at s vs
unfolding shown_at
shown_end at s [] new lt begins = ground arith
shown_end at s (v ∷ vs) new lt begins = ground (arith, shown_end at s vs new lt begins)

-- An earlier seq shows what it showed before.
pub shown_old :
    (at s : ℕ) (vs : List Version) (new : Version)
    → s < at
    → at < max_seq
    → new.seq_from ≡ at
    → face (shown_at s (close_first at vs ++ new ∷ [])) ≡ face (shown_at s vs)
unfolding close_first shown_at
shown_old at s [] new lt fits begins = ground arith
shown_old at s (v ∷ vs) new lt fits begins = elim (Bool-cases (nat_beq v.seq_to max_seq)) [
  | inl open_now ↦ rw (open_now, close_first) (ground (arith, shown_end at s vs new lt begins))
  | inr closed ↦ rw (closed, close_first) (ground (arith, shown_old at s vs new lt fits begins))
]

-- From the head on, a key without new versions shows the same.
pub shown_later :
    (lo head at : ℕ) (vs : List Version)
    → IsTimeline lo head vs
    → head ≤ at
    → at < max_seq
    → shown_at at vs ≡ shown_at head vs
unfolding shown_at
shown_later lo head at [] h le fits = refl
shown_later lo head at (v ∷ []) h le fits = ground arith
shown_later lo head at (v ∷ (w ∷ ws)) h le fits =
    ground (arith, first-le w ws h.3, shown_later (v.seq_from + 1) head at (w ∷ ws) h.3 le fits)
