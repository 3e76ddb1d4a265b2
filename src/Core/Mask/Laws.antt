-- ===== src/Core/Mask/Laws.antt =====
-- What the operations of internal/core/mask.go do to each column.
use datagit.Prelude.{
  ℕ, zero, suc, ◌+◌, ◌-◌, ◌*◌, ◌/◌, ◌%◌, ◌^◌, ◌<◌, ◌≡◌, ◌∙◌, refl, ap, Bool, false, ◌&&◌, ◌||◌,
  none, some, [], ◌∷◌, ◌++◌, nat_beq, ltb, leb, length, get_elem?, if◌then◌else◌, contains,
  contains-append, contains-dedup, contains-insertion_sort, arith, replicate, nat_eq, test_bit,
  test_bit-zero, test_bit-bit_or, test_bit-pow, dedup, length-append, Bool-cases, inl, inr,
}
use datagit.Core.Mask.{
  ColMask, ColId, has, grow, or_word, set, union, word_cols, cols_from, cols, union_cols,
}

-- The bit of the word at an index.
abbrev bit_at : ColMask → ℕ → ℕ → Bool
bit_at m i b = elim (get_elem? m i) [ none ↦ false | some w ↦ test_bit w b ]

bit_at-zeros : (n i b : ℕ) → bit_at (replicate n 0) i b ≡ false
bit_at-zeros zero i b = refl
bit_at-zeros (suc n) zero b = test_bit-zero b
bit_at-zeros (suc n) (suc i) b = bit_at-zeros n i b

bit_at-append_zeros : (m : ColMask) (n i b : ℕ) → bit_at (m ++ replicate n 0) i b ≡ bit_at m i b
bit_at-append_zeros [] n i b = bit_at-zeros n i b
bit_at-append_zeros (w ∷ m) n zero b = refl
bit_at-append_zeros (w ∷ m) n (suc i) b = bit_at-append_zeros m n i b

pub length-replicate : (n : ℕ) → length (replicate {A = ℕ} n 0) ≡ n
length-replicate zero = refl
length-replicate (suc n) = ap suc (length-replicate n)

length-grow : (w : ℕ) (m : ColMask) → w < length (grow w m)
unfolding grow
length-grow w m =
    omega
      (arith, length-append m (replicate (w + 1 - length m) 0), length-replicate (w + 1 - length m))

bit_at-or_word :
    (m : ColMask) (i j x b : ℕ)
    → i < length m
    → bit_at (or_word m i x) j b ≡ (bit_at m j b || (nat_beq i j && test_bit x b))
unfolding or_word
bit_at-or_word [] i j x b h = absurd (omega arith)
bit_at-or_word (w ∷ m) zero zero x b h = test_bit-bit_or w x b
bit_at-or_word (w ∷ m) zero (suc j) x b h = ground arith
bit_at-or_word (w ∷ m) (suc i) zero x b h = ground arith
bit_at-or_word (w ∷ m) (suc i) (suc j) x b h = bit_at-or_word m i j x b (omega arith) ∙ ground arith

same_column : (c d : ℕ) → (nat_beq (c / 64) (d / 64) && nat_beq (c % 64) (d % 64)) ≡ nat_beq c d
same_column c d = ground arith

-- `Set` sets its column and no other.
pub has-set : (m : ColMask) (c d : ColId) → has (set m c) d ≡ (has m d || nat_beq c d)
unfolding has set grow
has-set m c d =
    bit_at-or_word (grow (c / 64) m) (c / 64) (d / 64) (2 ^ (c % 64)) (d % 64)
      (length-grow (c / 64) m)
    ∙ ground (
      arith,
      bit_at-append_zeros m (c / 64 + 1 - length m) (d / 64) (d % 64),
      test_bit-pow (d % 64) (c % 64),
      same_column c d,
    )

bit_at-union : (m o : ColMask) (i b : ℕ) → bit_at (union m o) i b ≡ (bit_at m i b || bit_at o i b)
unfolding union
bit_at-union [] [] i b = refl
bit_at-union [] (y ∷ o) zero b = ground (arith, test_bit-bit_or 0 y b, test_bit-zero b)
bit_at-union [] (y ∷ o) (suc i) b = bit_at-union [] o i b
bit_at-union (x ∷ m) [] zero b = ground (arith, test_bit-bit_or x 0 b, test_bit-zero b)
bit_at-union (x ∷ m) [] (suc i) b = bit_at-union m [] i b
bit_at-union (x ∷ m) (y ∷ o) zero b = test_bit-bit_or x y b
bit_at-union (x ∷ m) (y ∷ o) (suc i) b = bit_at-union m o i b

-- `Or` has the columns of both masks, whatever their widths.
pub has-union : (m o : ColMask) (c : ColId) → has (union m o) c ≡ (has m c || has o c)
unfolding has
has-union m o c = bit_at-union m o (c / 64) (c % 64)

contains-word_cols :
    (n b base w c : ℕ)
    → contains c (word_cols n b base w)
      ≡ (leb (base + b) c && ltb c (base + b + n) && test_bit w (c - base))
unfolding contains word_cols
contains-word_cols zero b base w c = ground arith
contains-word_cols (suc n) b base w c = elim (Bool-cases (nat_beq (base + b) c)) [
  | inl e ↦
      let at : c - base ≡ b = ground arith in
      rw at (ground (arith, contains-word_cols n (b + 1) base w c))
  | inr e ↦ ground (arith, contains-word_cols n (b + 1) base w c)
]

bit_at-cons :
    (w : ℕ) (m : ColMask) (k b : ℕ)
    → bit_at (w ∷ m) k b ≡ (if nat_beq k 0 then test_bit w b else bit_at m (k - 1) b)
bit_at-cons w m zero b = refl
bit_at-cons w m (suc k) b = ground arith

minus_one : (i j : ℕ) → j - i - 1 ≡ j - (i + 1)
minus_one i j = omega arith

contains-cols_from :
    (i : ℕ) (m : ColMask) (c : ColId)
    → contains c (cols_from i m) ≡ (leb i (c / 64) && bit_at m (c / 64 - i) (c % 64))
unfolding contains cols_from
contains-cols_from i [] c = ground arith
contains-cols_from i (w ∷ m) c =
    contains-append c (word_cols 64 0 (i * 64) w) (cols_from (i + 1) m)
    ∙ elim (Bool-cases (nat_beq (c / 64) i)) [
      | inl here ↦
          let index : c / 64 - i ≡ 0 = ground arith in
          let bit : c - i * 64 ≡ c % 64 = ground arith in
          rw index (
            rw (← bit) (
              ground (arith, contains-word_cols 64 0 (i * 64) w c, contains-cols_from (i + 1) m c)))
      | inr other ↦ ground (
        arith,
        contains-word_cols 64 0 (i * 64) w c,
        contains-cols_from (i + 1) m c,
        bit_at-cons w m (c / 64 - i) (c % 64),
        minus_one i (c / 64),
      )
    ]

-- `Cols` lists the columns that the mask has.
pub contains-cols : (m : ColMask) (c : ColId) → contains c (cols m) ≡ has m c
unfolding cols has
contains-cols m c = contains-cols_from 0 m c ∙ ground arith

-- `UnionCols` lists the columns of either mask.
pub contains-union_cols :
    (a b : ColMask) (c : ColId) → contains c (union_cols a b) ≡ (has a c || has b c)
unfolding union_cols
contains-union_cols a b c =
    contains-insertion_sort ltb c (dedup (cols a ++ cols b))
    ∙ contains-dedup c (cols a ++ cols b)
    ∙ contains-append c (cols a) (cols b)
    ∙ ground (arith, contains-cols a c, contains-cols b c)
