-- ===== src/Core/Key.antt =====
-- Primary keys: `MakePK` and `Row.Encode` of internal/core/value.go, `decodePK` of
-- internal/store/values.go.
pub mod RoundTrip
pub mod RowCode
use datagit.Prelude.{
  ℕ, zero, suc, Bool, true, false, not, Option, none, some, List, [], ◌∷◌, Bytes, length, take,
  drop, ltb, nat_beq, if◌then◌else◌, Result, ok, err, malformed_key, wrong_parts, ◌>>=◌,
}
use datagit.Maps.Collect.{bind}
use datagit.Core.Mask.{ColId}
use datagit.Core.Value.{Value}
use datagit.Core.Row.{Row, get}
use datagit.Core.Encoding.{encode, decode_value, append_uint32}
use datagit.Core.Encoding.BigEndian.{read_big_endian}

abbrev pub Pk : Type 0
Pk = Bytes

-- The loop of `MakePK`; `none` is the panic of `MustEncode`.
encode_parts : Row → List ColId → Bytes → Option Bytes
encode_parts r [] buf = some buf
encode_parts r (c ∷ cs) buf = bind (encode (get r c) buf) (encode_parts r cs)

-- `MakePK`
unfoldable pub make_pk : Row → List ColId → Option Pk
unfolding encode_parts append_uint32
make_pk r pk_cols = encode_parts r pk_cols (append_uint32 [] (length pk_cols))

encode_columns : Row → List ColId → Bytes → Option Bytes
unfolding append_uint32
encode_columns r [] dst = some dst
encode_columns r (c ∷ cs) dst = bind (encode (get r c) (append_uint32 dst c)) (encode_columns r cs)

-- `Row.Encode`; `none` is its error.
unfoldable pub row_encode : Row → Bytes → List ColId → Option Bytes
unfolding encode_columns append_uint32
row_encode r dst cs = encode_columns r cs (append_uint32 dst (length cs))

-- `n` rounds of the loop of `decodePK`.
decode_parts : ℕ → Bytes → Result (List Value)
decode_parts zero b = ok []
decode_parts (suc n) b = decode_value b >>= λ p. decode_parts n p.1 >>= λ vs. ok (p.0 ∷ vs)

-- `decodePK`, for a table with `parts` key columns.
unfoldable pub decode_pk : Pk → ℕ → Result (List Value)
unfolding decode_parts
decode_pk b parts =
    if ltb (length b) 4
    then err malformed_key
    else (decode_parts (read_big_endian (take 4 b)) (drop 4 b) >>= λ out.
        if not (nat_beq (length out) parts) then err wrong_parts else ok out)
