-- ===== src/SchemaEngine/Types.antt =====
-- How risky a change of a column's SQL type is: `classifyTypeChange` of
-- internal/schemaeng/schema.go. `ToLower` and `TrimSpace` are those of ASCII text, which SQL types are.
use datagit.Prelude.{
  ℕ, ◌+◌, ◌-◌, ◌*◌, ◌%◌, ◌^◌, Bool, ◌&&◌, ◌||◌, Option, none, some, List, [], ◌∷◌, ◌++◌, Bytes,
  codes, nat_beq, leb, ltb, bytes_beq, bytes_eq, contains, if◌then◌else◌,
}
use mathlib.Core.List.{reverse}
use datagit.Maps.{Map, lookup}
use datagit.SchemaEngine.{MigrationClass, widening, narrowing, destructive}

is_space : ℕ → Bool
is_space c = nat_beq c 32 || (leb 9 c && leb c 13)

trim_left : Bytes → Bytes
unfolding is_space
trim_left [] = []
trim_left (c ∷ s) = let rest = trim_left s in if is_space c then rest else c ∷ s

-- `strings.TrimSpace`
unfoldable pub trim_space : Bytes → Bytes
unfolding trim_left
trim_space s = reverse (trim_left (reverse (trim_left s)))

-- `strings.ToLower`
unfoldable pub to_lower : Bytes → Bytes
to_lower [] = []
to_lower (c ∷ s) = (if leb b'A' c && leb c b'Z' then c + 32 else c) ∷ to_lower s

-- `s[:i]` and `s[i+1:]`, where `i` is the first place of the byte.
unfoldable pub before : ℕ → Bytes → Bytes
before b [] = []
before b (c ∷ s) = let rest = before b s in if nat_beq c b then [] else c ∷ rest

unfoldable pub after : ℕ → Bytes → Option Bytes
after b [] = none
after b (c ∷ s) = if nat_beq c b then some s else after b s

-- `synonyms`
abbrev pub synonyms : Map Bytes Bytes
synonyms =
    (codes "decimal", codes "numeric")
    ∷ (codes "dec", codes "numeric")
    ∷ (codes "fixed", codes "numeric")
    ∷ (codes "int", codes "integer")
    ∷ (codes "int4", codes "integer")
    ∷ (codes "int2", codes "smallint")
    ∷ (codes "int8", codes "bigint")
    ∷ (codes "bool", codes "boolean")
    ∷ (codes "varchar", codes "character varying")
    ∷ (codes "char", codes "character")
    ∷ (codes "float4", codes "real")
    ∷ (codes "float8", codes "double precision")
    ∷ (codes "double", codes "double precision")
    ∷ (codes "timestamptz", codes "timestamp with time zone")
    ∷ (codes "datetime", codes "timestamp")
    ∷ (codes "timestamp without time zone", codes "timestamp")
    ∷ []

-- `baseType`
unfoldable pub base_type : Bytes → Bytes
unfolding trim_space to_lower before after
base_type s =
    let lower = to_lower (trim_space s) in
    let name = elim (after b'(' lower) as (λ o. Bytes) [
      | none ↦ lower
      | some _ ↦ trim_space (before b'(' lower)
    ] in
    elim (lookup name synonyms) [ none ↦ name | some canonical ↦ canonical ]

-- `s[i+1 : i+j]`, up to the first comma or parenthesis that closes.
modifier : Bytes → Option Bytes
modifier [] = none
modifier (c ∷ s) =
    let rest = modifier s in
    if nat_beq c b',' || nat_beq c b')'
    then some []
    else elim rest [ none ↦ none | some m ↦ some (c ∷ m) ]

-- `n = n*10 + int(r-'0')` for each digit, as an int64; anything else gives 0.
read_width : ℕ → Bytes → ℕ
read_width n [] = n
read_width n (c ∷ s) =
    let rest = read_width ((n * 10 + (c - b'0')) % 2 ^ 64) s in
    if ltb c b'0' || ltb b'9' c then 0 else rest

-- `width`
unfoldable pub width : Bytes → ℕ
unfolding after modifier read_width
width s = elim (after b'(' s) [
  | none ↦ 0
  | some rest ↦ elim (modifier rest) [ none ↦ 0 | some m ↦ read_width 0 m ]
]

-- `widening`
abbrev pub widening_types : Map Bytes (List Bytes)
widening_types =
    (
      codes "smallint",
      codes "integer" ∷ codes "bigint" ∷ codes "numeric" ∷ codes "double precision" ∷ [],
    )
    ∷ (codes "integer", codes "bigint" ∷ codes "numeric" ∷ codes "double precision" ∷ [])
    ∷ (codes "bigint", codes "numeric" ∷ [])
    ∷ (codes "real", codes "double precision" ∷ [])
    ∷ (codes "character varying", codes "text" ∷ [])
    ∷ (codes "character", codes "character varying" ∷ codes "text" ∷ [])
    ∷ []

-- `fw > 0` of an int64.
unfoldable pub is_positive : ℕ → Bool
is_positive n = ltb 0 n && ltb n (2 ^ 63)

-- `classifyTypeChange`
unfoldable pub classify_type_change : Bytes → Bytes → MigrationClass × Bytes
unfolding base_type width is_positive
classify_type_change from to =
    let f = base_type from in
    let t = base_type to in
    let fw = width from in
    let tw = width to in
    if bytes_beq f t
    then if is_positive fw && is_positive tw
      then if leb fw tw
        then (widening, codes "the column admits everything it did before")
        else (narrowing, codes "requires a pre-flight scan proving no existing value is too long")
      else (widening, codes "no change in the value domain")
    else if contains t (elim (lookup f widening_types) [ none ↦ [] | some ts ↦ ts ])
    then (widening, codes "every existing value fits the new type")
    else (
      destructive,
      f
          ++ (codes " to "
              ++ (t
                  ++ (codes
                        " can lose information, and history cannot be coerced through a lossy cast ("
                      ++ 194 ∷ 167 ∷ codes "10.5 rule 3)"))),
    )
