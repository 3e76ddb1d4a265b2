-- ===== src/Core/Encoding/RoundTrip.antt =====
-- `decodeValue` undoes `Encode`, so no two values share an encoding, not even where more bytes
-- follow.
use mathlib.Core.List.{append_assoc}
use datagit.Prelude.{
  Bool-cases, inl, inr, if◌then◌else◌, ℕ, ◌+◌, ◌^◌, ◌<◌, ◌≡◌, ◌↔◌, refl, ap, ◌∙◌, true, false, [],
  ◌∷◌, ◌++◌, none, some, Bytes, length, drop, arith, length-append, take-append, drop-append,
  append_cancel_left, ok, bytes_beq_iff,
}
use datagit.Core.Value.{
  Value, null, bool, int, float, numeric, text, bytes, time, is_nan, is_zero, collapse_zero, equal,
  float_beq,
}
use datagit.Core.Value.Laws.{IsCanonical, equal_symm, equal_trans}
use datagit.Core.Encoding.{encode, decode_value, decode_word, decode_prefixed}
use datagit.Core.Encoding.Exact.{read_prefixed, read_value, decode_prefixed-read_prefixed}
use datagit.Core.Encoding.BigEndian.{big_endian, length-big_endian, read-big_endian}

-- The value fits the machine: a 64-bit word, or a payload whose length fits a uint32.
abbrev pub InRange : Value → Type 0
InRange (int i) = i < 2 ^ 64
InRange (time i) = i < 2 ^ 64
InRange (float f) = f < 2 ^ 64
InRange (numeric s) = length s < 2 ^ 32
InRange (text s) = length s < 2 ^ 32
InRange (bytes s) = length s < 2 ^ 32
InRange _ = Unit

decode_word-big_endian :
    (make : ℕ → Value) (n : ℕ) (rest : Bytes)
    → n < 2 ^ 64
    → decode_word make (big_endian 8 n ++ rest) ≡ ok (make n, rest)
unfolding decode_word
decode_word-big_endian make n rest h = ground (
  arith,
  length-append (big_endian 8 n) rest,
  length-big_endian 8 n,
  take-append (big_endian 8 n) rest 8 (length-big_endian 8 n),
  drop-append (big_endian 8 n) rest 8 (length-big_endian 8 n),
  read-big_endian 8 n h,
)

read_prefixed-append :
    (make : Bytes → Value) (s rest : Bytes)
    → length s < 2 ^ 32
    → read_prefixed make (big_endian 4 (length s) ++ (s ++ rest)) ≡ ok (make s, rest)
unfolding read_prefixed
read_prefixed-append make s rest h = ground (
  arith,
  length-append (big_endian 4 (length s)) (s ++ rest),
  length-append s rest,
  length-big_endian 4 (length s),
  take-append (big_endian 4 (length s)) (s ++ rest) 4 (length-big_endian 4 (length s)),
  drop-append (big_endian 4 (length s)) (s ++ rest) 4 (length-big_endian 4 (length s)),
  read-big_endian 4 (length s) h,
  take-append s rest (length s) refl,
  drop-append s rest (length s) refl,
)

-- The bytes of a value that is no NaN.
unfoldable pub code_of : Value → Bytes
code_of null = 0 ∷ []
code_of (bool b) = 1 ∷ (if b then 1 else 0) ∷ []
code_of (int i) = 2 ∷ big_endian 8 i
code_of (float f) = 3 ∷ big_endian 8 (collapse_zero f)
code_of (numeric s) = 4 ∷ (big_endian 4 (length s) ++ s)
code_of (text s) = 5 ∷ (big_endian 4 (length s) ++ s)
code_of (bytes s) = 6 ∷ (big_endian 4 (length s) ++ s)
code_of (time i) = 7 ∷ big_endian 8 i

-- A value that `Encode` refuses.
abbrev pub IsNan : Value → Type 0
IsNan (float f) = is_nan f ≡ true
IsNan _ = ⊥

pub encode-code_of :
    (v : Value) (dst : Bytes) → ¬ (IsNan v) → encode v dst ≡ some (dst ++ code_of v)
unfolding encode code_of
encode-code_of (bool true) dst h = simp append_assoc
encode-code_of (bool false) dst h = simp append_assoc
encode-code_of (float f) dst h = elim (Bool-cases (is_nan f)) [
  | inl e ↦ absurd (h e)
  | inr e ↦ rw e (simp append_assoc)
]
encode-code_of null dst h = refl
encode-code_of v dst h = simp append_assoc

-- `Encode` fails on NaN.
pub encode-IsNan : (v : Value) (dst : Bytes) → IsNan v → encode v dst ≡ none
unfolding encode
encode-IsNan (float f) dst h = ground arith
encode-IsNan null dst h = absurd h
encode-IsNan v dst h = absurd h

read-code_of :
    (v : Value) (rest : Bytes)
    → IsCanonical v
    → InRange v
    → read_value (code_of v ++ rest) ≡ ok (v, rest)
unfolding read_value code_of collapse_zero
read-code_of null rest hc hr = refl
read-code_of (bool true) rest hc hr = refl
read-code_of (bool false) rest hc hr = refl
read-code_of (int i) rest hc hr = decode_word-big_endian int i rest hr
read-code_of (time i) rest hc hr = decode_word-big_endian time i rest hr
read-code_of (float f) rest hc hr = elim (Bool-cases (is_zero f)) [
  | inl z ↦ rw (hc.1 z) (decode_word-big_endian float 0 rest (omega arith))
  | inr z ↦ rw z (decode_word-big_endian float f rest hr)
]
read-code_of (numeric s) rest hc hr = rw append_assoc (read_prefixed-append numeric s rest hr)
read-code_of (text s) rest hc hr = rw append_assoc (read_prefixed-append text s rest hr)
read-code_of (bytes s) rest hc hr = rw append_assoc (read_prefixed-append bytes s rest hr)

-- What follows the value leaves a length that fits a uint32, where `decodeValue` converts one.
abbrev pub IsReadable : Value → Bytes → Type 0
IsReadable (numeric s) rest = length s + length rest < 2 ^ 32
IsReadable (text s) rest = length s + length rest < 2 ^ 32
IsReadable (bytes s) rest = length s + length rest < 2 ^ 32
IsReadable v rest = InRange v

IsReadable-InRange : (v : Value) (rest : Bytes) → IsReadable v rest → InRange v
IsReadable-InRange (numeric s) rest h = omega arith
IsReadable-InRange (text s) rest h = omega arith
IsReadable-InRange (bytes s) rest h = omega arith
IsReadable-InRange null rest h = h
IsReadable-InRange v rest h = h

pub IsReadable-code_of :
    (v : Value) (rest : Bytes)
    → InRange v
    → length (code_of v) + length rest < 2 ^ 32
    → IsReadable v rest
unfolding code_of
IsReadable-code_of (numeric s) rest h short =
    omega (arith, length-append (big_endian 4 (length s)) s)
IsReadable-code_of (text s) rest h short = omega (arith, length-append (big_endian 4 (length s)) s)
IsReadable-code_of (bytes s) rest h short = omega (arith, length-append (big_endian 4 (length s)) s)
IsReadable-code_of null rest h short = h
IsReadable-code_of v rest h short = h

decode_prefixed-append :
    (make : Bytes → Value) (s rest : Bytes)
    → length s + length rest < 2 ^ 32
    → decode_prefixed make ((big_endian 4 (length s) ++ s) ++ rest) ≡ ok (make s, rest)
decode_prefixed-append make s rest h =
    let code = big_endian 4 (length s) in
    let tail : drop 4 (code ++ (s ++ rest)) ≡ s ++ rest =
      drop-append code (s ++ rest) 4 (length-big_endian 4 (length s)) in
    rw append_assoc (
      decode_prefixed-read_prefixed make (code ++ (s ++ rest))
        (rw tail (omega (arith, length-append s rest)))
      ∙ read_prefixed-append make s rest (omega arith))

-- Values that `Equal` identifies have the same encoding, also +0 and -0.
pub equal-code_of : (v w : Value) → equal v w ≡ true → code_of v ≡ code_of w
unfolding equal float_beq code_of collapse_zero is_zero
equal-code_of (numeric a) (numeric b) h = ground (arith, bytes_beq_iff a b)
equal-code_of (text a) (text b) h = ground (arith, bytes_beq_iff a b)
equal-code_of (bytes a) (bytes b) h = ground (arith, bytes_beq_iff a b)
equal-code_of null w h = ground arith
equal-code_of v w h = ground arith

-- The value that a decoder gives back: -0 has become +0.
pub normal : Value → Value
normal (float f) = float (collapse_zero f)
normal null = null
normal v = v

normal-IsCanonical : (v : Value) → ¬ (IsNan v) → IsCanonical (normal v)
unfolding normal collapse_zero is_zero is_nan
normal-IsCanonical (float f) h = ground arith
normal-IsCanonical null h = tt
normal-IsCanonical v h = tt

normal-InRange : (v : Value) → InRange v → InRange (normal v)
unfolding normal collapse_zero
normal-InRange (float f) h = ground arith
normal-InRange null h = tt
normal-InRange v h = h

code_of-normal : (v : Value) → code_of (normal v) ≡ code_of v
unfolding normal code_of collapse_zero is_zero
code_of-normal (float f) = ground arith
code_of-normal null = refl
code_of-normal v = refl

pub equal-normal : (v : Value) → ¬ (IsNan v) → equal v (normal v) ≡ true
unfolding normal equal float_beq collapse_zero is_zero is_nan
equal-normal (float f) h = ground arith
equal-normal (numeric s) h = (bytes_beq_iff s s).1 refl
equal-normal (text s) h = (bytes_beq_iff s s).1 refl
equal-normal (bytes s) h = (bytes_beq_iff s s).1 refl
equal-normal null h = refl
equal-normal v h = ground arith

pub read_normal :
    (v : Value) (rest : Bytes)
    → ¬ (IsNan v)
    → InRange v
    → read_value (code_of v ++ rest) ≡ ok (normal v, rest)
read_normal v rest hn hr =
    rw (← code_of-normal v)
      (read-code_of (normal v) rest (normal-IsCanonical v hn) (normal-InRange v hr))

pub decode_normal :
    (v : Value) (rest : Bytes)
    → ¬ (IsNan v)
    → IsReadable v rest
    → decode_value (code_of v ++ rest) ≡ ok (normal v, rest)
unfolding decode_value code_of normal read_value
decode_normal (numeric s) rest hn hr = decode_prefixed-append numeric s rest hr
decode_normal (text s) rest hn hr = decode_prefixed-append text s rest hr
decode_normal (bytes s) rest hn hr = decode_prefixed-append bytes s rest hr
decode_normal null rest hn hr = read_normal null rest hn hr
decode_normal v rest hn hr = read_normal v rest hn hr

-- A value that is no NaN is encoded, and decoding what was appended, with anything after it, gives
-- the value, up to the sign of zero, and what follows: for a word below 2 ^ 64, and for a text whose
-- length, with that of what follows, is below 2 ^ 32.
pub decode-encode :
    (v : Value) (dst rest : Bytes)
    → ¬ (IsNan v)
    → IsReadable v rest
    → (out : Bytes) × (encode v dst ≡ some (dst ++ out))
      × (decode_value (out ++ rest) ≡ ok (normal v, rest))
      × (equal v (normal v) ≡ true)
decode-encode v dst rest hn hr =
    (code_of v, encode-code_of v dst hn, decode_normal v rest hn hr, equal-normal v hn)

pub equal_of_normal :
    (v w : Value) → ¬ (IsNan v) → ¬ (IsNan w) → normal v ≡ normal w → equal v w ≡ true
equal_of_normal v w nv nw same =
    let back : equal (normal w) w ≡ true = equal_symm (normal w) w ∙ equal-normal w nw in
    equal_trans v (normal w) w (rw (← same) (equal-normal v nv)) back

code_of-injective :
    (v w : Value)
    → ¬ (IsNan v)
    → ¬ (IsNan w)
    → InRange v
    → InRange w
    → code_of v ≡ code_of w
    → equal v w ≡ true
code_of-injective v w nv nw rv rw' e = equal_of_normal v w nv nw (
    cc
      (read_normal v [] nv rv, read_normal w [] nw rw', ap (λ (b : Bytes). read_value (b ++ [])) e))

-- The canonical encodings of two values, in range and no NaN, are the same bytes exactly when
-- `Equal` identifies the values.
pub encode_eq_iff :
    (v w : Value) (dst : Bytes)
    → ¬ (IsNan v)
    → ¬ (IsNan w)
    → InRange v
    → InRange w
    → (encode v dst ≡ encode w dst) ↔ (equal v w ≡ true)
encode_eq_iff v w dst nv nw rv rw' = (
  (λ e.
      code_of-injective v w nv nw rv rw'
        (append_cancel_left dst (cc (encode-code_of v dst nv, encode-code_of w dst nw)))),
  (λ h. rw (encode-code_of v dst nv, encode-code_of w dst nw, equal-code_of v w h)),
)
