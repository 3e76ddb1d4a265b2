-- ===== src/Core/Encoding.antt =====
-- The canonical encoding: `Encode` and the framing helpers of internal/core/value.go, and
-- `decodeValue` of internal/store/values.go.
pub mod BigEndian
pub mod Framing
pub mod Exact
pub mod RoundTrip
use datagit.Prelude.{
  ℕ, zero, suc, ◌-◌, ◌%◌, ◌^◌, Bool, true, false, List, [], ◌∷◌, ◌++◌, Option, none, some, Bytes,
  length, take, drop, nat_beq, ltb, if◌then◌else◌, Result, ok, err, Error, truncated, unknown_kind,
}
use datagit.Core.Value.{
  Value, null, bool, int, float, numeric, text, bytes, time, kind, is_nan, collapse_zero,
}
use datagit.Core.Encoding.BigEndian.{big_endian, read_big_endian}

-- `AppendUint32`, `AppendUint64`
unfoldable pub append_uint32 : Bytes → ℕ → Bytes
append_uint32 dst n = dst ++ big_endian 4 n

unfoldable pub append_uint64 : Bytes → ℕ → Bytes
append_uint64 dst n = dst ++ big_endian 8 n

-- `appendLenPrefixed`: the conversion to uint32 wraps, as `big_endian 4` does.
unfoldable pub append_len_prefixed : Bytes → Bytes → Bytes
append_len_prefixed dst payload = (dst ++ big_endian 4 (length payload)) ++ payload

-- What `Encode` appends after the tag.
encode_payload : Value → Bytes → Option Bytes
unfolding append_uint64 append_len_prefixed collapse_zero
encode_payload null dst = some dst
encode_payload (bool b) dst = if b then some (dst ++ 1 ∷ []) else some (dst ++ 0 ∷ [])
encode_payload (int i) dst = some (append_uint64 dst i)
encode_payload (time i) dst = some (append_uint64 dst i)
encode_payload (float f) dst = if is_nan f then none else some (append_uint64 dst (collapse_zero f))
encode_payload (numeric s) dst = some (append_len_prefixed dst s)
encode_payload (text s) dst = some (append_len_prefixed dst s)
encode_payload (bytes s) dst = some (append_len_prefixed dst s)

-- `Encode`; `none` is its error, NaN.
unfoldable pub encode : Value → Bytes → Option Bytes
unfolding encode_payload kind
encode v dst = encode_payload v (dst ++ kind v ∷ [])

-- The length-prefixed kinds of `decodeValue`: `uint32(len(b)) < n` compares what the conversion leaves
-- of the length.
unfoldable pub decode_prefixed : (Bytes → Value) → Bytes → Result (Value × Bytes)
decode_prefixed make b =
    if ltb (length b) 4
    then err truncated
    else let n = read_big_endian (take 4 b) in
      let rest = drop 4 b in
      if ltb (length rest % 2 ^ 32) n then err truncated else ok (make (take n rest), drop n rest)

-- The eight-byte kinds.
unfoldable pub decode_word : (ℕ → Value) → Bytes → Result (Value × Bytes)
decode_word make b =
    if ltb (length b) 8 then err truncated else ok (make (read_big_endian (take 8 b)), drop 8 b)

unfoldable pub decode_bool : Bytes → Result (Value × Bytes)
decode_bool [] = err truncated
decode_bool (x ∷ b) = ok (bool (nat_beq x 1), b)

-- The `switch` on the tag.
unfoldable pub decode_kind : ℕ → Bytes → Result (Value × Bytes)
unfolding decode_prefixed decode_word decode_bool
decode_kind k b =
    if nat_beq k 0
    then ok (null, b)
    else if nat_beq k 1
    then decode_bool b
    else if nat_beq k 2
    then decode_word int b
    else if nat_beq k 7
    then decode_word time b
    else if nat_beq k 3
    then decode_word float b
    else if nat_beq k 4
    then decode_prefixed numeric b
    else if nat_beq k 5
    then decode_prefixed text b
    else if nat_beq k 6
    then decode_prefixed bytes b
    else err unknown_kind

-- `decodeValue`
unfoldable pub decode_value : Bytes → Result (Value × Bytes)
unfolding decode_kind
decode_value [] = err truncated
decode_value (k ∷ b) = decode_kind k b
