-- ===== src/Core/Mask/Bounds.antt =====
-- The words of the masks that internal/core/mask.go builds, and their number.
use native.Mathlib.Nat.{pow-le-pow_right}
use datagit.Prelude.{
  ℕ, zero, suc, ◌+◌, ◌-◌, ◌*◌, ◌/◌, ◌%◌, ◌^◌, ◌<◌, ◌≤◌, ◌≡◌, refl, List, [], ◌∷◌, ◌++◌, length,
  arith, replicate, length-append, bit_or-lt,
}
use datagit.Core.Mask.{ColMask, ColId, grow, or_word, set, union}
use datagit.Core.Mask.Laws.{length-replicate}

-- The words of a mask fit 64 bits.
abbrev pub IsMask : ColMask → Type 0
IsMask [] = Unit
IsMask (w ∷ m) = (w < 2 ^ 64) × IsMask m

IsMask-zeros : (n : ℕ) → IsMask (replicate n 0)
IsMask-zeros zero = tt
IsMask-zeros (suc n) = (omega arith, IsMask-zeros n)

IsMask-append : (m k : ColMask) → IsMask m → IsMask k → IsMask (m ++ k)
IsMask-append [] k h g = g
IsMask-append (w ∷ m) k h g = (h.0, IsMask-append m k h.1 g)

or_word-IsMask : (m : ColMask) (i x : ℕ) → IsMask m → x < 2 ^ 64 → IsMask (or_word m i x)
unfolding or_word
or_word-IsMask [] i x h lt = tt
or_word-IsMask (w ∷ m) zero x h lt = (bit_or-lt 64 w x h.0 lt, h.1)
or_word-IsMask (w ∷ m) (suc i) x h lt = (h.0, or_word-IsMask m i x h.1 lt)

length-or_word : (m : ColMask) (i x : ℕ) → length (or_word m i x) ≡ length m
unfolding or_word
length-or_word [] i x = refl
length-or_word (w ∷ m) zero x = refl
length-or_word (w ∷ m) (suc i) x = omega (arith, length-or_word m i x)

bit-lt : (b : ℕ) → b < 64 → 2 ^ b < 2 ^ 64
bit-lt b lt = omega (arith, pow-le-pow_right {n = 2} (omega arith) {i = b} {j = 63} (omega arith))

pub set-IsMask : (m : ColMask) (c : ColId) → IsMask m → IsMask (set m c)
unfolding set grow
set-IsMask m c h =
    or_word-IsMask (grow (c / 64) m) (c / 64) (2 ^ (c % 64))
      (IsMask-append m (replicate (c / 64 + 1 - length m) 0) h
        (IsMask-zeros (c / 64 + 1 - length m)))
      (bit-lt (c % 64) (omega arith))

pub length-set :
    (m : ColMask) (c : ColId) (n : ℕ) → length m ≤ n → c < 64 * n → length (set m c) ≤ n
unfolding set grow
length-set m c n h lt = omega (
  arith,
  length-or_word (grow (c / 64) m) (c / 64) (2 ^ (c % 64)),
  length-append m (replicate (c / 64 + 1 - length m) 0),
  length-replicate (c / 64 + 1 - length m),
)

pub union-IsMask : (m o : ColMask) → IsMask m → IsMask o → IsMask (union m o)
unfolding union
union-IsMask [] [] h k = tt
union-IsMask [] (b ∷ o) h k = (bit_or-lt 64 0 b (omega arith) k.0, union-IsMask [] o tt k.1)
union-IsMask (a ∷ m) [] h k = (bit_or-lt 64 a 0 h.0 (omega arith), union-IsMask m [] h.1 tt)
union-IsMask (a ∷ m) (b ∷ o) h k = (bit_or-lt 64 a b h.0 k.0, union-IsMask m o h.1 k.1)

pub length-union : (m o : ColMask) (n : ℕ) → length m ≤ n → length o ≤ n → length (union m o) ≤ n
unfolding union
length-union [] [] n h k = h
length-union [] (b ∷ o) (suc n) h k = omega (arith, length-union [] o n (omega arith))
length-union (a ∷ m) [] (suc n) h k = omega (arith, length-union m [] n)
length-union (a ∷ m) (b ∷ o) (suc n) h k = omega (arith, length-union m o n)
length-union [] (b ∷ o) zero h k = absurd (omega arith)
length-union (a ∷ m) o zero h k = absurd (omega arith)

-- Every column is one of the first `n` words.
abbrev pub AllWithin : ℕ → List ColId → Type 0
AllWithin n [] = Unit
AllWithin n (c ∷ cs) = (c < 64 * n) × AllWithin n cs
