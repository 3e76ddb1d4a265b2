-- ===== src/Core/Key/RoundTrip.antt =====
-- A primary key determines the key values of its row, and is determined by them.
use mathlib.Core.List.{append_assoc, append-nil}
use datagit.Prelude.{
  ◌^◌, ◌<◌, ◌≡◌, ◌↔◌, ◌∙◌, refl, true, some, List, [], ◌∷◌, ◌++◌, map, Bytes, length, ok, arith,
  length-append, take-append, drop-append, length-map,
}
use datagit.Core.Mask.{ColId}
use datagit.Core.Value.{Value}
use datagit.Core.Value as Value
use datagit.Core.Row.{Row, get}
use datagit.Core.Encoding.BigEndian.{big_endian, length-big_endian, read-big_endian}
use datagit.Core.Encoding.RoundTrip.{
  IsNan, InRange, IsReadable-code_of, code_of, encode-code_of, normal, decode_normal,
  equal_of_normal, equal-code_of,
}
use datagit.Core.Key.{Pk, encode_parts, make_pk, decode_parts, decode_pk}

-- Every key value is in range and no NaN.
abbrev pub IsKey : Row → List ColId → Type 0
IsKey r [] = Unit
IsKey r (c ∷ cs) = ¬ (IsNan (get r c)) × InRange (get r c) × IsKey r cs

-- The encodings of the key values, one after the other.
unfoldable pub parts_code : Row → List ColId → Bytes
parts_code r [] = []
parts_code r (c ∷ cs) = code_of (get r c) ++ parts_code r cs

encode_parts-parts_code :
    (r : Row) (cs : List ColId) (buf : Bytes)
    → IsKey r cs
    → encode_parts r cs buf ≡ some (buf ++ parts_code r cs)
unfolding encode_parts parts_code
encode_parts-parts_code r [] buf h = rw append-nil
encode_parts-parts_code r (c ∷ cs) buf h =
    rw (encode-code_of (get r c) buf h.0)
      (encode_parts-parts_code r cs (buf ++ code_of (get r c)) h.2 ∙ rw append_assoc)

pub parts : Row → List ColId → List Value
parts r cs = map (λ c. normal (get r c)) cs

decode_parts-parts_code :
    (r : Row) (cs : List ColId)
    → IsKey r cs
    → length (parts_code r cs) < 2 ^ 32
    → decode_parts (length cs) (parts_code r cs) ≡ ok (parts r cs)
unfolding decode_parts parts_code parts
decode_parts-parts_code r [] h short = refl
decode_parts-parts_code r (c ∷ cs) h short =
    let size = length-append (code_of (get r c)) (parts_code r cs) in
    rw
      (decode_normal (get r c) (parts_code r cs) h.0
        (IsReadable-code_of (get r c) (parts_code r cs) h.1 (omega (arith, size))))
      (rw (decode_parts-parts_code r cs h.2 (omega (arith, size))))

-- A key made of values in range, none of them NaN, whose encodings are together shorter than 2 ^ 32,
-- decodes to those values, up to the sign of zeros.
pub decode_pk-make_pk :
    (r : Row) (cs : List ColId)
    → IsKey r cs
    → length cs < 2 ^ 32
    → length (parts_code r cs) < 2 ^ 32
    → (pk : Pk) × (make_pk r cs ≡ some pk) × (decode_pk pk (length cs) ≡ ok (parts r cs))
unfolding make_pk decode_pk parts
decode_pk-make_pk r cs h fits short =
    let head = big_endian 4 (length cs) in
    (
      head ++ parts_code r cs,
      encode_parts-parts_code r cs head h,
      ground (
        arith,
        length-append head (parts_code r cs),
        length-big_endian 4 (length cs),
        take-append head (parts_code r cs) 4 (length-big_endian 4 (length cs)),
        drop-append head (parts_code r cs) 4 (length-big_endian 4 (length cs)),
        read-big_endian 4 (length cs) fits,
        decode_parts-parts_code r cs h short,
        length-map (λ c. normal (get r c)) cs,
      ),
    )

-- The rows have `Equal` values in each of the columns.
abbrev pub SameKey : Row → Row → List ColId → Type 0
SameKey r o [] = Unit
SameKey r o (c ∷ cs) = (Value.equal (get r c) (get o c) ≡ true) × SameKey r o cs

same_parts :
    (r o : Row) (cs : List ColId)
    → IsKey r cs
    → IsKey o cs
    → parts r cs ≡ parts o cs
    → SameKey r o cs
unfolding parts
same_parts r o [] hr ho e = tt
same_parts r o (c ∷ cs) hr ho e =
    (equal_of_normal (get r c) (get o c) hr.0 ho.0 (cc), same_parts r o cs hr.2 ho.2 (cc))

parts_code-SameKey :
    (r o : Row) (cs : List ColId) → SameKey r o cs → parts_code r cs ≡ parts_code o cs
unfolding parts_code
parts_code-SameKey r o [] h = refl
parts_code-SameKey r o (c ∷ cs) h =
    cc (equal-code_of (get r c) (get o c) h.0, parts_code-SameKey r o cs h.1)

-- Two rows have the same primary key exactly when their key columns have `Equal` values, for key
-- values in range and no NaN, whose encodings are together shorter than 2 ^ 32.
pub make_pk_eq_iff :
    (r o : Row) (cs : List ColId)
    → IsKey r cs
    → IsKey o cs
    → length cs < 2 ^ 32
    → length (parts_code r cs) < 2 ^ 32
    → length (parts_code o cs) < 2 ^ 32
    → (make_pk r cs ≡ make_pk o cs) ↔ SameKey r o cs
make_pk_eq_iff r o cs hr ho fits short_r short_o = (
  (λ e.
      let (p, mp, dp) = decode_pk-make_pk r cs hr fits short_r in
      let (q, mq, dq) = decode_pk-make_pk o cs ho fits short_o in
      same_parts r o cs hr ho (cc (mp, mq, dp, dq, e))),
  (λ s.
      unfold make_pk in
      rw (
        encode_parts-parts_code r cs (big_endian 4 (length cs)) hr,
        encode_parts-parts_code o cs (big_endian 4 (length cs)) ho,
        parts_code-SameKey r o cs s,
      )),
)
