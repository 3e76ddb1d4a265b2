-- ===== src/Engine/Resolve/Winner.antt =====
-- The two maps of `winners` against a reference: of the session's rows, then of each segment in
-- turn, the first version of the key.
use datagit.Prelude.{
  ℕ, ◌+◌, ◌≤◌, ◌≡◌, ◌∙◌, refl, Bool, true, false, ◌&&◌, Option, none, some, List, [], ◌∷◌, Bytes,
  bytes_beq, bytes_beq_iff, bytes_eq, if◌then◌else◌, arith, or_else, Option-cases, Bool-cases, inl,
  inr,
}
use datagit.Maps.{lookup, put, IsMap, lookup-put, put-IsMap}
use datagit.Maps.Collect.{bind, lookup-collect}
use datagit.Core.Key.{Pk}
use datagit.Engine.State.{Version, Segment}
use datagit.Engine.Resolve.{
  Best, no_best, consider, scan, scan_chain, winners, live, in_segment, resolve_chain,
}

-- The first version of the key that passes the test.
unfoldable pub first : (Version → Bool) → Pk → List Version → Option Version
first test pk [] = none
first test pk (v ∷ rows) =
    let rest = first test pk rows in if bytes_beq v.pk pk && test v then some v else rest

-- The version that a chain shows of a key: the first segment with one decides.
unfoldable pub winner : List Version → List Segment → Pk → Option Version
winner rows [] pk = none
winner rows (seg ∷ chain) pk = or_else (first (in_segment seg) pk rows) (winner rows chain pk)

abbrev pub session_winner : Bytes → List Version → Pk → Option Version
session_winner sid rows pk =
    if bytes_beq sid [] then none else first (λ v. bytes_beq v.session sid) pk rows

abbrev is_some : {A : Type 0} → Option A → Bool
is_some none = false
is_some (some a) = true

-- The maps hold the same keys, with priorities of at most `prio`.
record IsRanked (prio : ℕ) (best : Best) : Type 0 where
  together : (j : Pk) → is_some (lookup j best.versions) ≡ is_some (lookup j best.prios)
  bounded : (j : Pk) (q : ℕ) → lookup j best.prios ≡ some q → q ≤ prio
  is_map : IsMap best.versions

abbrev placed : ℕ → Version → Best → Best
placed prio v best = record {
  versions = put v.pk v best.versions;
  prios = put v.pk prio best.prios;
}

consider_fresh :
    (prio : ℕ) (v : Version) (best : Best)
    → lookup v.pk best.prios ≡ none
    → consider prio v best ≡ placed prio v best
unfolding consider
consider_fresh prio v best h = ground arith

consider_seen :
    (prio : ℕ) (v : Version) (best : Best) (q : ℕ)
    → lookup v.pk best.prios ≡ some q
    → q ≤ prio
    → consider prio v best ≡ best
unfolding consider
consider_seen prio v best q h le = ground arith

placed-IsRanked :
    (prio : ℕ) (v : Version) (best : Best) → IsRanked prio best → IsRanked prio (placed prio v best)
placed-IsRanked prio v best h = record {
  together = λ j.
      ground
        (arith, lookup-put j v.pk v best.versions, lookup-put j v.pk prio best.prios, h.together j);
  bounded = λ j q e. ground (arith, lookup-put j v.pk prio best.prios, h.bounded j q);
  is_map = put-IsMap v.pk v best.versions h.is_map;
}

consider-IsRanked :
    (prio : ℕ) (v : Version) (best : Best)
    → IsRanked prio best
    → IsRanked prio (consider prio v best)
consider-IsRanked prio v best h = elim (Option-cases (lookup v.pk best.prios)) [
  | inl new ↦ rw (consider_fresh prio v best new) (placed-IsRanked prio v best h)
  | inr (q, old) ↦ rw (consider_seen prio v best q old (h.bounded v.pk q old)) h
]

lookup-consider :
    (prio : ℕ) (v : Version) (best : Best) (j : Pk)
    → IsRanked prio best
    → lookup j (consider prio v best).versions
      ≡ or_else (lookup j best.versions) (if bytes_beq v.pk j then some v else none)
lookup-consider prio v best j h = elim (Option-cases (lookup v.pk best.prios)) [
  | inl new ↦
      rw (consider_fresh prio v best new)
        (ground (arith, lookup-put j v.pk v best.versions, h.together v.pk, bytes_beq_iff v.pk j))
  | inr (q, old) ↦
      rw (consider_seen prio v best q old (h.bounded v.pk q old))
        (ground (arith, h.together v.pk, bytes_beq_iff v.pk j))
]

-- One pass: what was there stays, and else the first version counts.
lookup-scan :
    (test : Version → Bool) (prio : ℕ) (rows : List Version) (best : Best) (j : Pk)
    → IsRanked prio best
    → (lookup j (scan test prio rows best).versions
        ≡ or_else (lookup j best.versions) (first test j rows))
      × IsRanked prio (scan test prio rows best)
unfolding scan first
lookup-scan test prio [] best j h = (ground arith, h)
lookup-scan test prio (v ∷ rows) best j h = elim (Bool-cases (test v)) [
  | inl passes ↦
      let ih =
        lookup-scan test prio rows (consider prio v best) j (consider-IsRanked prio v best h) in
      rw passes (ground (arith, ih.0, lookup-consider prio v best j h), ih.1)
  | inr fails ↦
      let ih = lookup-scan test prio rows best j h in rw fails (ground (arith, ih.0), ih.1)
]

IsRanked-suc : {prio : ℕ} {best : Best} → IsRanked prio best → IsRanked (prio + 1) best
IsRanked-suc h = record {
  together = h.together;
  bounded = λ j q e. omega (arith, h.bounded j q e);
  is_map = h.is_map;
}

lookup-scan_chain :
    (prio : ℕ) (chain : List Segment) (rows : List Version) (best : Best) (j : Pk)
    → IsRanked prio best
    → (lookup j (scan_chain prio chain rows best).versions
        ≡ or_else (lookup j best.versions) (winner rows chain j))
      × IsMap (scan_chain prio chain rows best).versions
unfolding scan_chain winner
lookup-scan_chain prio [] rows best j h = (ground arith, h.is_map)
lookup-scan_chain prio (seg ∷ chain) rows best j h =
    let here = lookup-scan (in_segment seg) prio rows best j h in
    let rest =
      lookup-scan_chain (prio + 1) chain rows (scan (in_segment seg) prio rows best) j
        (IsRanked-suc here.1) in
    (ground (arith, here.0, rest.0), rest.1)

no_best-IsRanked : (prio : ℕ) → IsRanked prio no_best
unfolding lookup
no_best-IsRanked prio = record { together = λ j. refl; bounded = λ j q e. cc; is_map = tt }

pub lookup-winners :
    (rows : List Version) (chain : List Segment) (sid : Bytes) (j : Pk)
    → (lookup j (winners rows chain sid)
        ≡ or_else (session_winner sid rows j) (winner rows chain j))
      × IsMap (winners rows chain sid)
unfolding winners lookup
lookup-winners rows chain sid j = elim (Bool-cases (bytes_beq sid [])) [
  | inl plain ↦
      let all = lookup-scan_chain 1 chain rows no_best j (no_best-IsRanked 1) in
      rw (plain, winners) all
  | inr named ↦
      let own = lookup-scan (λ v. bytes_beq v.session sid) 0 rows no_best j (no_best-IsRanked 0) in
      let all =
        lookup-scan_chain 1 chain rows (scan (λ v. bytes_beq v.session sid) 0 rows no_best) j
          (IsRanked-suc own.1) in
      rw (named, winners) (ground (arith, own.0, all.0), all.1)
]

-- The view of a chain from the winners.
pub lookup-resolve_chain :
    (rows : List Version) (chain : List Segment) (sid : Bytes) (j : Pk)
    → lookup j (resolve_chain rows chain sid)
      ≡ bind (or_else (session_winner sid rows j) (winner rows chain j)) (live j)
unfolding resolve_chain
lookup-resolve_chain rows chain sid j =
    let all = lookup-winners rows chain sid j in
    lookup-collect live (winners rows chain sid) j all.1 ∙ rw all.0
