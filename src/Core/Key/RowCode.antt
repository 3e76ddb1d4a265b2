-- ===== src/Core/Key/RowCode.antt =====
-- What `Row.Encode` of internal/core/value.go appends, and that it tells rows apart.
use mathlib.Core.List.{append_assoc, append-nil}
use datagit.Prelude.{
  ◌≡◌, ◌∙◌, refl, sym, ap, some, List, [], ◌∷◌, ◌++◌, Bytes, length, ok, Result, arith,
}
use datagit.Maps.Collect.{bind-eq-some}
use datagit.Core.Mask.{ColId}
use datagit.Core.Value.{Value}
use datagit.Core.Row.{Row, get}
use datagit.Core.Encoding.{encode, append_uint32}
use datagit.Core.Encoding.Exact.{read_value}
use datagit.Core.Encoding.BigEndian.{big_endian}
use datagit.Core.Encoding.Framing.{append_eq}
use datagit.Core.Encoding.RoundTrip.{
  IsNan, InRange, code_of, encode-code_of, encode-IsNan, normal, read_normal, equal_of_normal,
}
use datagit.Core.Key.{row_encode, encode_columns}
use datagit.Core.Key.RoundTrip.{SameKey}

-- The values in the columns are in range.
abbrev pub FitsRow : Row → List ColId → Type 0
FitsRow r [] = Unit
FitsRow r (c ∷ cs) = InRange (get r c) × FitsRow r cs

abbrev pub HasNoNan : Row → List ColId → Type 0
HasNoNan r [] = Unit
HasNoNan r (c ∷ cs) = ¬ (IsNan (get r c)) × HasNoNan r cs

pub row_code : Row → List ColId → Bytes
row_code r [] = []
row_code r (c ∷ cs) = big_endian 4 c ++ (code_of (get r c) ++ row_code r cs)

not-IsNan : (v : Value) (dst out : Bytes) → encode v dst ≡ some out → ¬ (IsNan v)
not-IsNan v dst out h nan = cc (encode-IsNan v dst nan, h)

-- A row that is encoded holds no NaN, and its bytes are its code.
encode_columns-row_code :
    (r : Row) (cs : List ColId) (dst out : Bytes)
    → encode_columns r cs dst ≡ some out
    → HasNoNan r cs × (out ≡ dst ++ row_code r cs)
unfolding encode_columns row_code append_uint32
encode_columns-row_code r [] dst out h = (tt, ground (arith, append-nil dst))
encode_columns-row_code r (c ∷ cs) dst out h =
    let start = dst ++ big_endian 4 c in
    let (mid, done, more) = bind-eq-some (encode (get r c) start) (encode_columns r cs) h in
    let fine = not-IsNan (get r c) start mid done in
    let (rest, e) = encode_columns-row_code r cs mid out more in
    (
      (fine, rest),
      cc (
        e,
        encode-code_of (get r c) start fine,
        done,
        append_assoc dst (big_endian 4 c) (code_of (get r c) ++ row_code r cs),
        append_assoc start (code_of (get r c)) (row_code r cs),
      ),
    )

pub row_encode-row_code :
    (r : Row) (cs : List ColId) (dst out : Bytes)
    → row_encode r dst cs ≡ some out
    → HasNoNan r cs × (out ≡ dst ++ (big_endian 4 (length cs) ++ row_code r cs))
unfolding row_encode append_uint32
row_encode-row_code r cs dst out h =
    let (fine, e) = encode_columns-row_code r cs (dst ++ big_endian 4 (length cs)) out h in
    (fine, e ∙ append_assoc dst (big_endian 4 (length cs)) (row_code r cs))

-- Rows with one code have `Equal` values in the columns.
pub row_code_eq :
    (r o : Row) (cs : List ColId)
    → HasNoNan r cs
    → HasNoNan o cs
    → FitsRow r cs
    → FitsRow o cs
    → row_code r cs ≡ row_code o cs
    → SameKey r o cs
unfolding row_code
row_code_eq r o [] nr no_ fr fo h = tt
row_code_eq r o (c ∷ cs) nr no_ fr fo h =
    let (_, tail) =
      append_eq (big_endian 4 c) (big_endian 4 c) (code_of (get r c) ++ row_code r cs)
        (code_of (get o c) ++ row_code o cs) refl h in
    let both : ◌≡◌ {A = Result (Value × Bytes)} (ok (normal (get r c), row_code r cs))
        (ok (normal (get o c), row_code o cs)) =
      sym (read_normal (get r c) (row_code r cs) nr.0 fr.0)
      ∙ ap read_value tail
      ∙ read_normal (get o c) (row_code o cs) no_.0 fo.0 in
    (
      equal_of_normal (get r c) (get o c) nr.0 no_.0 (cc),
      row_code_eq r o cs nr.1 no_.1 fr.1 fo.1 (cc),
    )
