-- ===== src/Engine/Masks.antt =====
-- `accumulateMask` and `maskSince` of internal/engine/engine.go.
use datagit.Prelude.{
  ℕ, Bool, false, ◌&&◌, ◌||◌, none, some, List, [], ◌∷◌, Bytes, bytes_beq, bytes_eq, leb, ltb,
  if◌then◌else◌, nat_eq,
}
use datagit.Maps.{Map, lookup, put}
use datagit.Core.Mask.{ColMask}
use datagit.Core.Mask as Mask
use datagit.Core.Key.{Pk}
use datagit.Merge.Cells.{mask_at}
use datagit.Engine.State.{Version, Segment, Engine, chain_for, head_seq}

-- A committed version that the branch wrote in (from, to].
unfoldable pub wrote_in : Bytes → ℕ → ℕ → Version → Bool
wrote_in branch from_seq to_seq v =
    (bytes_beq v.branch branch && bytes_beq v.session [])
    && (ltb from_seq v.seq_from && leb v.seq_from to_seq)

-- The loop of `accumulateMask`: `out[v.PK] = out[v.PK].Or(v.Changed)`.
unfoldable pub accumulate : (Version → Bool) → List Version → Map Pk ColMask → Map Pk ColMask
unfolding mask_at
accumulate test [] out = out
accumulate test (v ∷ rows) out =
    accumulate test rows
      (if test v then put v.pk (Mask.union (mask_at out v.pk) v.changed) out else out)

-- `accumulateMask`
unfoldable pub accumulate_mask : List Version → Bytes → ℕ → ℕ → Map Pk ColMask
unfolding wrote_in accumulate
accumulate_mask rows branch from_seq to_seq = accumulate (wrote_in branch from_seq to_seq) rows []

-- `for pk, m := range ... { out[pk] = out[pk].Or(m) }`
unfoldable pub or_all : Map Pk ColMask → Map Pk ColMask → Map Pk ColMask
unfolding mask_at
or_all [] out = out
or_all ((pk, m) ∷ masks) out = or_all masks (put pk (Mask.union (mask_at out pk) m) out)

-- `add`
unfoldable pub add : List Version → Bytes → ℕ → ℕ → Map Pk ColMask → Map Pk ColMask
unfolding accumulate_mask or_all
add rows branch lo hi out =
    if leb hi lo then out else or_all (accumulate_mask rows branch lo hi) out

-- `baseUpper`
unfoldable pub base_upper : List Segment → Map Bytes ℕ → Map Bytes ℕ
base_upper [] upper = upper
base_upper (s ∷ chain) upper = base_upper chain (put s.branch s.seq upper)

-- One segment of the branch's chain: the range between the base's bound and its own, either way
-- round.
unfoldable pub add_segment : List Version → Map Bytes ℕ → Segment → Map Pk ColMask → Map Pk ColMask
unfolding add
add_segment rows upper seg out = elim (lookup seg.branch upper) [
  | none ↦ add rows seg.branch 0 seg.seq out
  | some base_seq ↦
      if ltb seg.seq base_seq
      then add rows seg.branch seg.seq base_seq out
      else add rows seg.branch base_seq seg.seq out
]

-- The loop over the branch's chain.
unfoldable pub add_chain :
    List Version → Map Bytes ℕ → List Segment → Map Pk ColMask → Map Pk ColMask
unfolding add_segment
add_chain rows upper [] out = out
add_chain rows upper (seg ∷ chain) out = add_chain rows upper chain (add_segment rows upper seg out)

-- `seen[s.Branch]`
unfoldable pub has_segment : Bytes → List Segment → Bool
has_segment branch [] = false
has_segment branch (seg ∷ chain) = bytes_beq seg.branch branch || has_segment branch chain

-- The loop over the segments of the base that the branch's chain does not have.
unfoldable pub add_missing :
    List Version → List Segment → List Segment → Map Pk ColMask → Map Pk ColMask
unfolding add has_segment
add_missing rows chain [] out = out
add_missing rows chain (s ∷ base) out =
    add_missing rows chain base
      (if has_segment s.branch chain then out else add rows s.branch 0 s.seq out)

-- `maskSince` for the two chains.
unfoldable pub mask_between : List Version → List Segment → List Segment → Map Pk ColMask
unfolding base_upper add_chain add_missing
mask_between rows base chain =
    add_missing rows chain base (add_chain rows (base_upper base []) chain [])

-- `maskSince`: its callers give a branch that exists.
unfoldable pub mask_since : Engine → Bytes → Bytes → Map Pk ColMask
unfolding mask_between chain_for head_seq
mask_since e branch base_commit = elim (lookup base_commit e.commits) [
  | none ↦ []
  | some cm ↦ mask_between e.rows cm.chain (chain_for e.branches branch (head_seq e branch))
]
