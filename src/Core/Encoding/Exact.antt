-- ===== src/Core/Encoding/Exact.antt =====
-- A reader of the canonical encoding that does not convert lengths, and where `decodeValue` of
-- internal/store/values.go is the same.
use datagit.Prelude.{
  ℕ, ◌%◌, ◌^◌, ◌<◌, ◌≡◌, refl, [], ◌∷◌, Bytes, length, take, drop, nat_beq, ltb, if◌then◌else◌,
  Result, ok, err, truncated, arith,
}
use datagit.Core.Value.{Value, numeric, text, bytes}
use datagit.Core.Encoding.{decode_prefixed, decode_kind}
use datagit.Core.Encoding.BigEndian.{read_big_endian}

unfoldable pub read_prefixed : (Bytes → Value) → Bytes → Result (Value × Bytes)
read_prefixed make b =
    if ltb (length b) 4
    then err truncated
    else let n = read_big_endian (take 4 b) in
      let rest = drop 4 b in
      if ltb (length rest) n then err truncated else ok (make (take n rest), drop n rest)

unfoldable pub read_kind : ℕ → Bytes → Result (Value × Bytes)
unfolding read_prefixed decode_kind
read_kind k b =
    if nat_beq k 4
    then read_prefixed numeric b
    else if nat_beq k 5
    then read_prefixed text b
    else if nat_beq k 6
    then read_prefixed bytes b
    else decode_kind k b

unfoldable pub read_value : Bytes → Result (Value × Bytes)
unfolding read_kind
read_value [] = err truncated
read_value (k ∷ b) = read_kind k b

pub decode_prefixed-read_prefixed :
    (make : Bytes → Value) (b : Bytes)
    → length (drop 4 b) < 2 ^ 32
    → decode_prefixed make b ≡ read_prefixed make b
unfolding decode_prefixed read_prefixed
decode_prefixed-read_prefixed make b short =
    let same : length (drop 4 b) % 2 ^ 32 ≡ length (drop 4 b) = omega arith in rw same refl
