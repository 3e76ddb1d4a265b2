-- ===== src/Core/Mask.antt =====
-- internal/core/mask.go: `ColMask`, a list of 64-bit words.
pub mod Laws
pub mod Bounds
use Prim.Native.Nat.{bit_and, bit_or}
use datagit.Prelude.{
  ℕ, zero, suc, ◌+◌, ◌-◌, ◌*◌, ◌/◌, ◌%◌, ◌^◌, Bool, true, false, not, ◌&&◌, ◌||◌, Option, none,
  some, List, [], ◌∷◌, ◌++◌, nat_beq, ltb, leb, length, get_elem?, test_bit, if◌then◌else◌,
  insertion_sort, dedup, replicate, nat_eq,
}

abbrev pub ColId : Type 0
ColId = ℕ

abbrev pub ColMask : Type 0
ColMask = List ℕ

-- `Has`
unfoldable pub has : ColMask → ColId → Bool
has m c = elim (get_elem? m (c / 64)) [ none ↦ false | some w ↦ test_bit w (c % 64) ]

-- `for len(m) <= w { m = append(m, 0) }`
grow : ℕ → ColMask → ColMask
grow w m = m ++ replicate (w + 1 - length m) 0

-- `m[w] |= x`
or_word : ColMask → ℕ → ℕ → ColMask
or_word [] i x = []
or_word (w ∷ m) zero x = bit_or w x ∷ m
or_word (w ∷ m) (suc i) x = w ∷ or_word m i x

-- `Set`
unfoldable pub set : ColMask → ColId → ColMask
unfolding grow or_word
set m c = or_word (grow (c / 64) m) (c / 64) (2 ^ (c % 64))

-- `Or`: the shorter mask is extended by zeros.
unfoldable pub union : ColMask → ColMask → ColMask
union [] [] = []
union [] (b ∷ o) = bit_or 0 b ∷ union [] o
union (a ∷ m) [] = bit_or a 0 ∷ union m []
union (a ∷ m) (b ∷ o) = bit_or a b ∷ union m o

-- `Intersects`: the loop ends with the shorter mask.
unfoldable pub intersects : ColMask → ColMask → Bool
intersects (a ∷ m) (b ∷ o) = not (nat_beq (bit_and a b) 0) || intersects m o
intersects _ _ = false

-- `IsZero`
unfoldable pub is_zero : ColMask → Bool
is_zero [] = true
is_zero (w ∷ m) = nat_beq w 0 && is_zero m

-- The set bits of one word from bit `b` on, `n` bits long.
word_cols : ℕ → ℕ → ℕ → ℕ → List ColId
word_cols zero b base w = []
word_cols (suc n) b base w =
    let rest = word_cols n (b + 1) base w in if test_bit w b then (base + b) ∷ rest else rest

cols_from : ℕ → ColMask → List ColId
cols_from i [] = []
cols_from i (w ∷ m) = word_cols 64 0 (i * 64) w ++ cols_from (i + 1) m

-- `Cols`
unfoldable pub cols : ColMask → List ColId
unfolding word_cols cols_from
cols m = cols_from 0 m

-- `UnionCols`: a set of columns, sorted.
unfoldable pub union_cols : ColMask → ColMask → List ColId
union_cols a b = insertion_sort ltb (dedup (cols a ++ cols b))
