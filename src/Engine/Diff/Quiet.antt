-- ===== src/Engine/Diff/Quiet.antt =====
-- What a key shows on a branch between two seqs in which `Diff` of internal/engine/engine.go finds no
-- version of it.
use datagit.Prelude.{
  ℕ, ◌+◌, ◌≤◌, ◌<◌, ◌≡◌, refl, Bool, true, false, ◌&&◌, none, some, List, [], ◌∷◌, Bytes, bytes_beq,
  bytes_eq, leb, ltb, arith, Bool-cases, inl, inr,
}
use datagit.Maps.{Map, lookup, put, lookup-put, IsMap, put-IsMap}
use datagit.Core.Change.{Table}
use datagit.Core.Key.{Pk}
use datagit.Engine.State.{Version, Segment, Branch, Engine, max_seq, chain_for, segment}
use datagit.Engine.Resolve.{resolve_chain}
use datagit.Engine.Resolve.Winner.{winner, lookup-resolve_chain}
use datagit.Engine.History.{history, in_history, shown_at, first-in_segment}
use datagit.Engine.History.Timeline.{IsTimeline, shown_early}
use datagit.Engine.Publish.Invariant.{IsSane}
use datagit.Engine.Masks.{wrote_in}
use datagit.Engine.Diff.{touched}

-- No version begins after `from_seq` and up to `to_seq`.
abbrev pub IsQuiet : ℕ → ℕ → List Version → Type 0
IsQuiet from_seq to_seq [] = Unit
IsQuiet from_seq to_seq (v ∷ vs) =
    ((ltb from_seq v.seq_from && leb v.seq_from to_seq) ≡ false) × IsQuiet from_seq to_seq vs

shown_here :
    (s : ℕ) (v : Version) (vs : List Version)
    → v.seq_from ≤ s
    → s < v.seq_to
    → shown_at s (v ∷ vs) ≡ some v
unfolding shown_at
shown_here s v vs begun lasts = ground arith

shown_skip :
    (s : ℕ) (v : Version) (vs : List Version) → v.seq_to ≤ s → shown_at s (v ∷ vs) ≡ shown_at s vs
unfolding shown_at
shown_skip s v vs over = ground arith

shown_before :
    (lo head s : ℕ) (v : Version) (vs : List Version)
    → IsTimeline lo head (v ∷ vs)
    → s < v.seq_from
    → shown_at s (v ∷ vs) ≡ none
shown_before lo head s v vs h lt =
    shown_early v.seq_from head s (v ∷ vs) (omega arith, h.1, h.2, h.3) lt

module _ (from_seq to_seq : ℕ) (le : from_seq ≤ to_seq) (fits : to_seq < max_seq) where
  -- A version that has begun is shown at both ends, or over at both.
  shown_begun :
      (lo head : ℕ) (v : Version) (vs : List Version)
      → IsTimeline lo head (v ∷ vs)
      → IsQuiet from_seq to_seq (v ∷ vs)
      → v.seq_from ≤ from_seq
      → shown_at from_seq vs ≡ shown_at to_seq vs
      → shown_at from_seq (v ∷ vs) ≡ shown_at to_seq (v ∷ vs)
  shown_begun lo head v [] h q begun rest = rw (
    shown_here from_seq v [] begun (omega arith),
    shown_here to_seq v [] (omega arith) (omega arith),
  )
  shown_begun lo head v (w ∷ ws) h q begun rest = elim (Bool-cases (leb w.seq_from from_seq)) [
    | inl over ↦
        rw
          (
            shown_skip from_seq v (w ∷ ws) (ground arith),
            shown_skip to_seq v (w ∷ ws) (ground arith),
          )
          rest
    | inr lasts ↦ rw (
      shown_here from_seq v (w ∷ ws) begun (ground arith),
      shown_here to_seq v (w ∷ ws) (omega arith) (ground (arith, q.1.0)),
    )
  ]

  shown_quiet :
      (lo head : ℕ) (vs : List Version)
      → IsTimeline lo head vs
      → IsQuiet from_seq to_seq vs
      → shown_at from_seq vs ≡ shown_at to_seq vs
  shown_quiet lo head [] h q = unfold shown_at in refl
  shown_quiet lo head (v ∷ vs) h q = elim (Bool-cases (leb v.seq_from from_seq)) [
    | inl begun ↦
        shown_begun lo head v vs h q (ground arith) (shown_quiet (v.seq_from + 1) head vs h.3 q.1)
    | inr later ↦ rw (
      shown_before lo head from_seq v vs h (ground arith),
      shown_before lo head to_seq v vs h (ground (arith, q.0)),
    )
  ]

module _ (branch : Bytes) (from_seq to_seq : ℕ) where
  -- A key that `Diff` does not look at has no version in the range.
  pub touched-IsQuiet :
      (rows : List Version) (seen : Map Pk Bool) (j : Pk)
      → lookup j (touched (wrote_in branch from_seq to_seq) rows seen) ≡ none
      → IsQuiet from_seq to_seq (history branch j rows) × (lookup j seen ≡ none)
  unfolding touched history wrote_in
  touched-IsQuiet [] seen j h = (tt, h)
  touched-IsQuiet (v ∷ rows) seen j h = elim (Bool-cases (wrote_in branch from_seq to_seq v)) [
    | inl inside ↦
        let rest = touched-IsQuiet rows (put v.pk true seen) j (rw (inside, touched) at h) in
        elim (Bool-cases (bytes_beq v.pk j)) [
          | inl same ↦ ground (arith, rest.1, lookup-put j v.pk true seen)
          | inr other ↦
              let skip : in_history branch j v ≡ false = ground arith in
              rw (skip, history) (rest.0, ground (arith, rest.1, lookup-put j v.pk true seen))
        ]
    | inr outside ↦
        let rest = touched-IsQuiet rows seen j (rw (outside, touched) at h) in
        elim (Bool-cases (in_history branch j v)) [
          | inl kept ↦ rw (kept, history) ((ground arith, rest.0), rest.1)
          | inr skip ↦ rw (skip, history) rest
        ]
  ]

  pub touched-IsMap :
      (test : Version → Bool) (rows : List Version) (seen : Map Pk Bool)
      → IsMap seen
      → IsMap (touched test rows seen)
  unfolding touched
  touched-IsMap test [] seen h = h
  touched-IsMap test (v ∷ rows) seen h = elim (Bool-cases (test v)) [
    | inl passes ↦
        rw (passes, touched)
          (touched-IsMap test rows (put v.pk true seen) (put-IsMap v.pk true seen h))
    | inr fails ↦ rw (fails, touched) (touched-IsMap test rows seen h)
  ]

-- What the branch's present chain shows, read at an earlier seq of the branch.
abbrev pub table_at : Engine → Bytes → ℕ → Table
table_at e branch s = resolve_chain e.rows (chain_for e.branches branch s) []

winner_quiet :
    (e : Engine) (branch : Bytes) (from_seq to_seq : ℕ) (chain : List Segment) (j : Pk)
    → IsSane e
    → IsQuiet from_seq to_seq (history branch j e.rows)
    → from_seq ≤ to_seq
    → to_seq < max_seq
    → winner e.rows (segment branch from_seq ∷ chain) j
      ≡ winner e.rows (segment branch to_seq ∷ chain) j
unfolding winner
winner_quiet e branch from_seq to_seq chain j sane quiet le fits = rw (
  first-in_segment (segment branch from_seq) j e.rows,
  first-in_segment (segment branch to_seq) j e.rows,
  shown_quiet from_seq to_seq le fits 1 _ (history branch j e.rows) (sane.timelines branch j) quiet,
)

abbrev inherited : Map Bytes Branch → Bytes → List Segment
inherited branches branch = elim (lookup branch branches) [ none ↦ [] | some b ↦ b.chain ]

chain_for-segment :
    (branches : Map Bytes Branch) (branch : Bytes) (s : ℕ)
    → chain_for branches branch s ≡ segment branch s ∷ inherited branches branch
unfolding chain_for
chain_for-segment branches branch s = ground arith

-- Such a key shows the same at both ends.
pub table_at-quiet :
    (e : Engine) (branch : Bytes) (from_seq to_seq : ℕ) (j : Pk)
    → IsSane e
    → IsQuiet from_seq to_seq (history branch j e.rows)
    → from_seq ≤ to_seq
    → to_seq < max_seq
    → lookup j (table_at e branch from_seq) ≡ lookup j (table_at e branch to_seq)
table_at-quiet e branch from_seq to_seq j sane quiet le fits = rw (
  lookup-resolve_chain e.rows (chain_for e.branches branch from_seq) [] j,
  lookup-resolve_chain e.rows (chain_for e.branches branch to_seq) [] j,
  chain_for-segment e.branches branch from_seq,
  chain_for-segment e.branches branch to_seq,
  winner_quiet e branch from_seq to_seq (inherited e.branches branch) j sane quiet le fits,
)
