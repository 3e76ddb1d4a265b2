-- ===== src/Hash/Leaf.antt =====
-- What `LeafDigest` of internal/hash/hash.go hashes, and that it tells changes apart.
use mathlib.Core.List.{append_assoc, append-nil}
use datagit.Prelude.{
  ℕ, zero, suc, ◌/◌, ◌%◌, ◌^◌, ◌<◌, ◌≡◌, ◌∙◌, refl, sym, ap, Bool, false, none, some, List, [], ◌∷◌,
  ◌++◌, Bytes, length, arith, Bool-cases, inl, inr, drop, get_elem?, if◌then◌else◌, test_bit,
  test_bit-zero, replicate, length-append,
}
use datagit.Core.Mask.Bounds.{IsMask}
use datagit.Core.Mask.{ColId, ColMask, has}
use datagit.Core.Key.RoundTrip.{SameKey}
use datagit.Core.Key.RowCode.{FitsRow, HasNoNan, row_code, row_encode-row_code, row_code_eq}
use datagit.Core.Change.{Op, insert, update, delete, is_delete}
use datagit.Core.Encoding.{append_uint64, append_len_prefixed}
use datagit.Core.Encoding.BigEndian.{big_endian, length-big_endian}
use datagit.Core.Encoding.Framing.{append_eq, big_endian_eq, framed, framed_eq}
use datagit.Hash.{
  Change, tag_leaf, op_byte, strip_word, strip, append_words, mask_bytes, leaf_head, leaf_bytes,
}

strip_word-IsMask : (w : ℕ) (m : ColMask) → w < 2 ^ 64 → IsMask m → IsMask (strip_word w m)
unfolding strip_word
strip_word-IsMask w [] h k = ground arith
strip_word-IsMask w (v ∷ m) h k = (h, k)

strip-IsMask : (m : ColMask) → IsMask m → IsMask (strip m)
unfolding strip
strip-IsMask [] h = tt
strip-IsMask (w ∷ m) h = strip_word-IsMask w (strip m) h.0 (strip-IsMask m h.1)

abbrev bit_at : ColMask → ℕ → ℕ → Bool
bit_at [] i b = false
bit_at (w ∷ m) zero b = test_bit w b
bit_at (w ∷ m) (suc i) b = bit_at m i b

bit_at-strip_word :
    (w : ℕ) (m : ColMask) (i b : ℕ) → bit_at (strip_word w m) i b ≡ bit_at (w ∷ m) i b
unfolding strip_word
bit_at-strip_word w [] zero b = ground (arith, test_bit-zero b)
bit_at-strip_word w [] (suc i) b = ground arith
bit_at-strip_word w (v ∷ m) i b = refl

bit_at-strip : (m : ColMask) (i b : ℕ) → bit_at (strip m) i b ≡ bit_at m i b
unfolding strip
bit_at-strip [] i b = refl
bit_at-strip (w ∷ m) zero b = bit_at-strip_word w (strip m) 0 b
bit_at-strip (w ∷ m) (suc i) b = bit_at-strip_word w (strip m) (suc i) b ∙ bit_at-strip m i b

has-bit_at :
    (m : ColMask) (i b : ℕ)
    → elim (get_elem? m i) as (λ o. Bool) [ none ↦ false | some w ↦ test_bit w b ] ≡ bit_at m i b
has-bit_at [] i b = refl
has-bit_at (w ∷ m) zero b = refl
has-bit_at (w ∷ m) (suc i) b = has-bit_at m i b

-- Zero words at the end hold no column.
pub has-strip : (m : ColMask) (c : ColId) → has (strip m) c ≡ has m c
unfolding has
has-strip m c =
    has-bit_at (strip m) (c / 64) (c % 64)
    ∙ bit_at-strip m (c / 64) (c % 64)
    ∙ sym (has-bit_at m (c / 64) (c % 64))

words : List ℕ → Bytes
words [] = []
words (w ∷ ws) = big_endian 8 w ++ words ws

append_words-words : (out : Bytes) (ws : List ℕ) → append_words out ws ≡ out ++ words ws
unfolding append_words append_uint64 words
append_words-words out [] = sym (append-nil out)
append_words-words out (w ∷ ws) =
    append_words-words (out ++ big_endian 8 w) ws ∙ append_assoc out (big_endian 8 w) (words ws)

words_eq : (ws vs : List ℕ) → IsMask ws → IsMask vs → words ws ≡ words vs → ws ≡ vs
unfolding words
words_eq [] [] hw hv h = refl
words_eq [] (v ∷ vs) hw hv h =
    absurd
      (omega (arith, ap length h, length-append (big_endian 8 v) (words vs), length-big_endian 8 v))
words_eq (w ∷ ws) [] hw hv h =
    absurd
      (omega (arith, ap length h, length-append (big_endian 8 w) (words ws), length-big_endian 8 w))
words_eq (w ∷ ws) (v ∷ vs) hw hv h =
    let (e, rest) = big_endian_eq 8 w v (words ws) (words vs) hw.0 hv.0 h in
    let same = words_eq ws vs hw.1 hv.1 rest in cc

-- What is framed in a leaf is short enough for its length.
pub record Fits (c : Change) (cols : List ColId) : Type 0 where
  pub table : c.table_id < 2 ^ 64
  pub key : length c.pk < 2 ^ 32
  pub mask : length (mask_bytes c.changed) < 2 ^ 32
  pub words : IsMask c.changed
  pub cells : FitsRow c.row cols

-- The two changes say the same: the table, the key, the operation, the columns that the masks have,
-- and, but for a delete, `Equal` values in the columns of the schema.
pub record SameChange (c d : Change) (cols : List ColId) : Type 0 where
  pub same_table : c.table_id ≡ d.table_id
  pub same_key : c.pk ≡ d.pk
  pub same_op : c.op ≡ d.op
  pub same_mask : (x : ColId) → has c.changed x ≡ has d.changed x
  pub same_cells : is_delete c.op ≡ false → SameKey c.row d.row cols

-- The row's part of a leaf.
row_part : Change → List ColId → Bytes
row_part c cols = if is_delete c.op then [] else big_endian 4 (length cols) ++ row_code c.row cols

pub leaf_code : Change → List ColId → Bytes
leaf_code c cols =
    big_endian 8 c.table_id
    ++ framed c.pk (op_byte c.op ∷ framed (mask_bytes c.changed) (row_part c cols))

leaf_head-framed :
    (c : Change) (rest : Bytes)
    → leaf_head c ++ rest
      ≡ tag_leaf
        ∷ (big_endian 8 c.table_id
            ++ framed c.pk (op_byte c.op ∷ framed (mask_bytes c.changed) rest))
unfolding leaf_head append_uint64 append_len_prefixed framed
leaf_head-framed c rest = simp append_assoc

plain_leaf :
    (c : Change) (out : Bytes)
    → some (leaf_head c) ≡ some out
    → out
      ≡ tag_leaf
        ∷ (big_endian 8 c.table_id ++ framed c.pk (op_byte c.op ∷ framed (mask_bytes c.changed) []))
plain_leaf c out h = cc (h, append-nil (leaf_head c), leaf_head-framed c [])

pub leaf_bytes-leaf_code :
    (c : Change) (cols : List ColId) (out : Bytes)
    → leaf_bytes c cols ≡ some out
    → (is_delete c.op ≡ false → HasNoNan c.row cols) × (out ≡ tag_leaf ∷ leaf_code c cols)
unfolding leaf_bytes leaf_code row_part
leaf_bytes-leaf_code c cols out h = elim (Bool-cases (is_delete c.op)) [
  | inl gone ↦ ((λ kept. cc), rw gone (plain_leaf c out (rw gone at h)))
  | inr kept ↦
      let rest = big_endian 4 (length cols) ++ row_code c.row cols in
      let (fine, e) = row_encode-row_code c.row cols (leaf_head c) out (rw kept at h) in
      ((λ _. fine), rw kept (e ∙ leaf_head-framed c rest))
]

op_byte_eq : (o p : Op) → op_byte o ≡ op_byte p → o ≡ p
unfolding op_byte
op_byte_eq insert p h = ground arith
op_byte_eq update p h = ground arith
op_byte_eq delete p h = ground arith

mask_bytes_eq :
    (m k : ColMask) → IsMask m → IsMask k → mask_bytes m ≡ mask_bytes k → strip m ≡ strip k
unfolding mask_bytes
mask_bytes_eq m k hm hk h =
    words_eq (strip m) (strip k) (strip-IsMask m hm) (strip-IsMask k hk)
      (sym (append_words-words [] (strip m)) ∙ h ∙ append_words-words [] (strip k))

row_part_eq :
    (c d : Change) (cols : List ColId)
    → c.op ≡ d.op
    → (is_delete c.op ≡ false → HasNoNan c.row cols)
    → (is_delete d.op ≡ false → HasNoNan d.row cols)
    → FitsRow c.row cols
    → FitsRow d.row cols
    → row_part c cols ≡ row_part d cols
    → is_delete c.op ≡ false
    → SameKey c.row d.row cols
unfolding row_part
row_part_eq c d cols same nc nd fc fd h kept =
    let kept' : is_delete d.op ≡ false = ap is_delete (sym same) ∙ kept in
    let both : big_endian 4 (length cols) ++ row_code c.row cols
        ≡ big_endian 4 (length cols) ++ row_code d.row cols =
      cc (kept, kept', h) in
    row_code_eq c.row d.row cols (nc kept) (nd kept') fc fd
      (append_eq (big_endian 4 (length cols)) (big_endian 4 (length cols)) (row_code c.row cols)
        (row_code d.row cols) refl both).1

-- Two changes with one leaf, under one schema and with parts that fit, say the same.
pub leaf_bytes_eq :
    (c d : Change) (cols : List ColId) (out : Bytes)
    → Fits c cols
    → Fits d cols
    → leaf_bytes c cols ≡ some out
    → leaf_bytes d cols ≡ some out
    → SameChange c d cols
unfolding leaf_code
leaf_bytes_eq c d cols out fc fd hc hd =
    let (nc, ec) = leaf_bytes-leaf_code c cols out hc in
    let (nd, ed) = leaf_bytes-leaf_code d cols out hd in
    let (table, r1) =
      big_endian_eq 8 c.table_id d.table_id
        (framed c.pk (op_byte c.op ∷ framed (mask_bytes c.changed) (row_part c cols)))
        (framed d.pk (op_byte d.op ∷ framed (mask_bytes d.changed) (row_part d cols))) fc.table
        fd.table (ap (drop 1) (sym ec ∙ ed)) in
    let (key, r2) =
      framed_eq c.pk d.pk (op_byte c.op ∷ framed (mask_bytes c.changed) (row_part c cols))
        (op_byte d.op ∷ framed (mask_bytes d.changed) (row_part d cols)) fc.key fd.key r1 in
    let (mask, r3) =
      framed_eq (mask_bytes c.changed) (mask_bytes d.changed) (row_part c cols) (row_part d cols)
        fc.mask fd.mask (ap (drop 1) r2) in
    let op = op_byte_eq c.op d.op (cc r2) in
    record {
      same_table = table;
      same_key = key;
      same_op = op;
      same_mask = λ x.
          sym (has-strip c.changed x)
          ∙ ap (λ (m : ColMask). has m x) (mask_bytes_eq c.changed d.changed fc.words fd.words mask)
          ∙ has-strip d.changed x;
      same_cells = row_part_eq c d cols op nc nd fc.cells fd.cells r3;
    }

strip-widen : (m : ColMask) (n : ℕ) → strip (m ++ replicate n 0) ≡ strip m
unfolding strip strip_word
strip-widen [] zero = refl
strip-widen [] (suc n) = rw (strip-widen [] n) refl
strip-widen (w ∷ m) n = rw (strip-widen m n) refl

-- A wider mask over the same columns changes no leaf.
pub leaf_bytes-widen :
    (c : Change) (n : ℕ) (cols : List ColId)
    → leaf_bytes (record c { changed = c.changed ++ replicate n 0 }) cols ≡ leaf_bytes c cols
unfolding leaf_bytes leaf_head mask_bytes
leaf_bytes-widen c n cols = rw (strip-widen c.changed n) refl
