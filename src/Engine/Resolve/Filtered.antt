-- ===== src/Engine/Resolve/Filtered.antt =====
-- The two passes of `ResolveFiltered` against filtering what `Resolve` returns.
use datagit.Prelude.{
  ◌≡◌, ◌∙◌, refl, Bool, true, false, not, ◌&&◌, Option, none, some, List, [], ◌∷◌, Bytes, bytes_beq,
  bytes_beq_iff, bytes_eq, if◌then◌else◌, arith, Option-cases, Bool-cases, inl, inr,
}
use datagit.Maps.{Map, lookup, put, lookup-put}
use datagit.Maps.Collect.{bind, collect, lookup-collect}
use datagit.Core.Row.{Row}
use datagit.Core.Key.{Pk}
use datagit.Core.Change.{is_delete}
use datagit.Engine.State.{Version, Segment, Engine, chain_for}
use datagit.Engine.Resolve.{
  winners, live, in_segment, resolve_chain, resolve, candidates_in, candidates, is_candidate, keep,
  resolve_filtered,
}
use datagit.Engine.Resolve.Winner.{first, winner, lookup-winners, lookup-resolve_chain}

module _ (pred : Row → Bool) where
  abbrev Matches : Version → Type 0
  Matches v = (is_delete v.op ≡ false) × (pred v.row ≡ true)

  -- A candidate stays one.
  candidates_in_keep :
      (seg : Segment) (rows : List Version) (seen : Map Pk Bool) (j : Pk)
      → is_candidate seen j ≡ true
      → is_candidate (candidates_in pred seg rows seen) j ≡ true
  unfolding candidates_in
  candidates_in_keep seg [] seen j h = h
  candidates_in_keep seg (v ∷ rows) seen j h =
      candidates_in_keep seg rows
        (if in_segment seg v && (not (is_delete v.op) && pred v.row)
          then put v.pk true seen
          else seen)
        j (unfold is_candidate in ground (arith, lookup-put j v.pk true seen))

  candidates_in-first :
      (seg : Segment) (rows : List Version) (seen : Map Pk Bool) (j : Pk) (w : Version)
      → first (in_segment seg) j rows ≡ some w
      → Matches w
      → is_candidate (candidates_in pred seg rows seen) j ≡ true
  unfolding candidates_in first
  candidates_in-first seg [] seen j w h m = cc
  candidates_in-first seg (v ∷ rows) seen j w h m =
      elim (Bool-cases (bytes_beq v.pk j && in_segment seg v)) [
        | inl found ↦
            candidates_in_keep seg rows
              (if in_segment seg v && (not (is_delete v.op) && pred v.row)
                then put v.pk true seen
                else seen)
              j
              (unfold is_candidate in
                ground (arith, lookup-put j v.pk true seen, bytes_beq_iff v.pk j))
        | inr other ↦
            candidates_in-first seg rows
              (if in_segment seg v && (not (is_delete v.op) && pred v.row)
                then put v.pk true seen
                else seen)
              j w (ground arith) m
      ]

  candidates_keep :
      (chain : List Segment) (rows : List Version) (seen : Map Pk Bool) (j : Pk)
      → is_candidate seen j ≡ true
      → is_candidate (candidates pred chain rows seen) j ≡ true
  unfolding candidates
  candidates_keep [] rows seen j h = h
  candidates_keep (seg ∷ chain) rows seen j h =
      candidates_keep chain rows (candidates_in pred seg rows seen) j
        (candidates_in_keep seg rows seen j h)

  -- A winner that matches is among the candidates.
  candidates-winner :
      (chain : List Segment) (rows : List Version) (seen : Map Pk Bool) (j : Pk) (w : Version)
      → winner rows chain j ≡ some w
      → Matches w
      → is_candidate (candidates pred chain rows seen) j ≡ true
  unfolding candidates winner
  candidates-winner [] rows seen j w h m = cc
  candidates-winner (seg ∷ chain) rows seen j w h m =
      elim (Option-cases (first (in_segment seg) j rows)) [
        | inl below ↦
            candidates-winner chain rows (candidates_in pred seg rows seen) j w (ground arith) m
        | inr (v, here) ↦
            candidates_keep chain rows (candidates_in pred seg rows seen) j
              (candidates_in-first seg rows seen j w (ground arith) m)
      ]

  abbrev pub filtered : Row → Option Row
  filtered row = if pred row then some row else none

  keep-winner :
      (chain : List Segment) (rows : List Version) (j : Pk)
      → bind (winner rows chain j) (keep pred (candidates pred chain rows []) j)
        ≡ bind (bind (winner rows chain j) (live j)) filtered
  unfolding keep live
  keep-winner chain rows j = elim (Option-cases (winner rows chain j)) [
    | inl absent ↦ rw absent
    | inr (w, found) ↦ rw found (ground (arith, candidates-winner chain rows [] j w found))
  ]

  filtered_chain :
      (chain : List Segment) (rows : List Version) (j : Pk)
      → lookup j (collect (keep pred (candidates pred chain rows [])) (winners rows chain []))
        ≡ bind (lookup j (resolve_chain rows chain [])) filtered
  unfolding bytes_beq
  filtered_chain chain rows j =
      let all = lookup-winners rows chain [] j in
      lookup-collect (keep pred (candidates pred chain rows [])) (winners rows chain []) j all.1
      ∙ rw (all.0, lookup-resolve_chain rows chain [] j) (keep-winner chain rows j)

  -- A filtered read shows exactly the rows of the resolved branch that satisfy the predicate.
  pub lookup-resolve_filtered :
      (e : Engine) (branch : Bytes) (j : Pk)
      → lookup j (resolve_filtered e branch pred)
        ≡ bind (lookup j (resolve e branch)) (λ row. if pred row then some row else none)
  unfolding resolve_filtered resolve
  lookup-resolve_filtered e branch j = elim (Option-cases (lookup branch e.branches)) [
    | inl missing ↦ rw (missing, resolve_filtered, resolve) (unfold lookup in refl)
    | inr (b, found) ↦
        rw (found, resolve_filtered, resolve)
          (filtered_chain (chain_for e.branches branch b.head_seq) e.rows j)
  ]
