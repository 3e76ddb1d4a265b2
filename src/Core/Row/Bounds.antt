-- ===== src/Core/Row/Bounds.antt =====
-- The size of what `MaskOf` of internal/core/mask.go gives.
use datagit.Prelude.{ℕ, ◌≤◌, List, [], ◌∷◌, length, arith, Bool-cases, inl, inr}
use datagit.Core.Mask.{ColMask, ColId, set}
use datagit.Core.Mask.Bounds.{IsMask, AllWithin, set-IsMask, length-set}
use datagit.Core.Value as Value
use datagit.Core.Row.{Row, get, mask_loop, mask_of}

mask_loop-bounds :
    (before after : Row) (m : ColMask) (cs : List ColId) (n : ℕ)
    → AllWithin n cs
    → IsMask m
    → length m ≤ n
    → IsMask (mask_loop before after m cs) × (length (mask_loop before after m cs) ≤ n)
unfolding mask_loop
mask_loop-bounds before after m [] n all h le = (h, le)
mask_loop-bounds before after m (c ∷ cs) n all h le =
    elim (Bool-cases (Value.equal (get before c) (get after c))) [
      | inl same ↦ rw (same, mask_loop) (mask_loop-bounds before after m cs n all.1 h le)
      | inr apart ↦
          rw (apart, mask_loop)
            (mask_loop-bounds before after (set m c) cs n all.1 (set-IsMask m c h)
              (length-set m c n le all.0))
    ]

-- Where the columns lie below 64 * n, the mask that `MaskOf` gives has at most n words, each below
-- 2 ^ 64.
pub mask_of-bounds :
    (before after : Row) (cs : List ColId) (n : ℕ)
    → AllWithin n cs
    → IsMask (mask_of before after cs) × (length (mask_of before after cs) ≤ n)
unfolding mask_of
mask_of-bounds before after cs n all = mask_loop-bounds before after [] cs n all tt (omega arith)
