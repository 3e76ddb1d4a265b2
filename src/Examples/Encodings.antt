-- ===== src/Examples/Encodings.antt =====
-- The theorems on values, masks, rows and keys at concrete inputs.
use datagit.Prelude.{
  ℕ, ◌<◌, ◌^◌, ◌≡◌, ◌↔◌, true, some, [], ◌∷◌, ◌++◌, Bytes, codes, bytes_eq, nat_eq, length, arith,
  ok,
}
use datagit.Maps.{lookup}
use datagit.Core.Value.{int, text, equal}
use datagit.Core.Value.Laws as ValueLaws
use datagit.Core.Encoding.{encode, decode_value}
use datagit.Core.Encoding.RoundTrip.{normal, decode-encode, encode_eq_iff}
use datagit.Core.Mask.{ColId}
use datagit.Core.Row.{get}
use datagit.Core.Key.{Pk, make_pk, decode_pk}
use datagit.Core.Key.RoundTrip.{IsKey, parts, parts_code, decode_pk-make_pk}
use datagit.Core.Encoding.RoundTrip.{code_of}
use datagit.Core.Encoding.BigEndian.{big_endian}
use datagit.Examples.{row_of}

decode-encode_example :
    (out : Bytes) × (encode (text (codes "ab")) (9 ∷ []) ≡ some ((9 ∷ []) ++ out))
    × (decode_value (out ++ 5 ∷ []) ≡ ok (normal (text (codes "ab")), 5 ∷ []))
    × (equal (text (codes "ab")) (normal (text (codes "ab"))) ≡ true)
decode-encode_example = decode-encode (text (codes "ab")) (9 ∷ []) (5 ∷ []) (λ h. h) (omega arith)

encode_eq_iff_example : (encode (int 7) [] ≡ encode (int 8) []) ↔ (equal (int 7) (int 8) ≡ true)
encode_eq_iff_example =
    encode_eq_iff (int 7) (int 8) [] (λ h. h) (λ h. h) (omega arith) (omega arith)

row-IsKey : (a b : ℕ) → a < 2 ^ 64 → IsKey (row_of a b) (1 ∷ [])
unfolding get lookup
row-IsKey a b h = ((λ k. k), h, tt)

key_is_short : length (parts_code (row_of 7 1) (1 ∷ [])) < 2 ^ 32
unfolding parts_code code_of get lookup big_endian
key_is_short = omega arith

decode_pk-make_pk_example :
    (pk : Pk) × (make_pk (row_of 7 1) (1 ∷ []) ≡ some pk)
    × (decode_pk pk (length {A = ColId} (1 ∷ [])) ≡ ok (parts (row_of 7 1) (1 ∷ [])))
decode_pk-make_pk_example =
    decode_pk-make_pk (row_of 7 1) (1 ∷ []) (row-IsKey 7 1 (omega arith)) (omega arith) key_is_short

value_equal_iff_example : (equal (int 7) (int 8) ≡ true) ↔ (int 7 ≡ int 8)
value_equal_iff_example = ValueLaws.equal_iff (int 7) (int 8) tt tt
