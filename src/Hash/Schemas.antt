-- ===== src/Hash/Schemas.antt =====
-- `SchemaDigest` of internal/hash/hash.go against the columns that it stands for.
use mathlib.Core.List.{append_assoc, append-nil, Perm}
use datagit.Prelude.{
  ℕ, ◌^◌, ◌<◌, ◌≡◌, ◌∙◌, ◌⊎◌, refl, sym, ap, inl, inr, List, [], ◌∷◌, ◌++◌, Bytes, length, ltb,
  insertion_sort, perm_of_sort, length-insertion_sort, insert, Bool-cases, arith, drop,
}
use datagit.Core.Encoding.{append_uint32, append_uint64, append_len_prefixed}
use datagit.Core.Encoding.BigEndian.{big_endian}
use datagit.Core.Encoding.Framing.{big_endian_eq, framed, framed_eq}
use datagit.Hash.{
  Digest, SchemaColumn, tag_schema, flags, append_columns, schema_bytes, schema_digest,
}
use datagit.Hash.Trees.{Collision, text-binds}

columns_code : List SchemaColumn → Bytes
columns_code [] = []
columns_code (c ∷ cs) =
    big_endian 4 c.id ++ framed c.name (framed c.type (flags c ∷ columns_code cs))

append_columns-columns_code :
    (buf : Bytes) (cs : List SchemaColumn) → append_columns buf cs ≡ buf ++ columns_code cs
unfolding append_columns columns_code append_uint32 append_len_prefixed framed
append_columns-columns_code buf [] = sym (append-nil buf)
append_columns-columns_code buf (c ∷ cs) =
    append_columns-columns_code
      (append_len_prefixed (append_len_prefixed (append_uint32 buf c.id) c.name) c.type
        ++ flags c ∷ [])
      cs
    ∙ simp append_assoc

-- Column ids are uint32, and the texts' lengths fit one.
abbrev pub FitsColumn : SchemaColumn → Type 0
FitsColumn c = (c.id < 2 ^ 32) × (length c.name < 2 ^ 32) × (length c.type < 2 ^ 32)

abbrev pub AllFit : List SchemaColumn → Type 0
AllFit [] = Unit
AllFit (c ∷ cs) = FitsColumn c × AllFit cs

insert-AllFit :
    (c : SchemaColumn) (cs : List SchemaColumn)
    → FitsColumn c
    → AllFit cs
    → AllFit (insert (λ a b. ltb a.id b.id) c cs)
unfolding insert
insert-AllFit c [] h k = (h, tt)
insert-AllFit c (d ∷ ds) h k = elim (Bool-cases (ltb c.id d.id)) [
  | inl before ↦ rw before (h, k)
  | inr after ↦ rw after (k.0, insert-AllFit c ds h k.1)
]

sort-AllFit :
    (cs : List SchemaColumn) → AllFit cs → AllFit (insertion_sort (λ a b. ltb a.id b.id) cs)
unfolding insertion_sort
sort-AllFit [] h = tt
sort-AllFit (c ∷ cs) h =
    insert-AllFit c (insertion_sort (λ a b. ltb a.id b.id) cs) h.0 (sort-AllFit cs h.1)

flags_eq : (c d : SchemaColumn) → flags c ≡ flags d → (c.nullable ≡ d.nullable) × (c.pk ≡ d.pk)
unfolding flags
flags_eq c d h = ground arith

columns_code_eq :
    (cs ds : List SchemaColumn)
    → AllFit cs
    → AllFit ds
    → length cs ≡ length ds
    → columns_code cs ≡ columns_code ds
    → cs ≡ ds
unfolding columns_code
columns_code_eq [] [] fc fd same h = refl
columns_code_eq [] (d ∷ ds) fc fd same h = absurd (omega arith)
columns_code_eq (c ∷ cs) [] fc fd same h = absurd (omega arith)
columns_code_eq (c ∷ cs) (d ∷ ds) fc fd same h =
    let (id, r1) =
      big_endian_eq 4 c.id d.id (framed c.name (framed c.type (flags c ∷ columns_code cs)))
        (framed d.name (framed d.type (flags d ∷ columns_code ds))) fc.0.0 fd.0.0 h in
    let (name, r2) =
      framed_eq c.name d.name (framed c.type (flags c ∷ columns_code cs))
        (framed d.type (flags d ∷ columns_code ds)) fc.0.1 fd.0.1 r1 in
    let (type, r3) =
      framed_eq c.type d.type (flags c ∷ columns_code cs) (flags d ∷ columns_code ds) fc.0.2 fd.0.2
        r2 in
    let (nullable, pk) = flags_eq c d (cc r3) in
    let rest = columns_code_eq cs ds fc.1 fd.1 (omega arith) (ap (drop 1) r3) in
    ground (arith, rest)

schema_code : ℕ → List SchemaColumn → Bytes
schema_code table_id cols =
    big_endian 8 table_id ++ (big_endian 4 (length cols) ++ columns_code cols)

schema_bytes-schema_code :
    (table_id : ℕ) (cols : List SchemaColumn)
    → schema_bytes table_id cols
      ≡ tag_schema ∷ schema_code table_id (insertion_sort (λ a b. ltb a.id b.id) cols)
unfolding schema_bytes schema_code append_uint32 append_uint64
schema_bytes-schema_code table_id cols =
    let sorted = insertion_sort (λ (a b : SchemaColumn). ltb a.id b.id) cols in
    append_columns-columns_code
      (append_uint32 (append_uint64 (tag_schema ∷ []) table_id) (length sorted)) sorted
    ∙ simp append_assoc

module _ (sha256 : Bytes → Digest) where
  -- Two schemas with one digest, of tables whose ids fit 64 bits and with columns that fit, are of
  -- one table and have the same columns, in some order, or two texts are at hand that have one
  -- SHA-256.
  pub schema_digest-binds :
      (t u : ℕ) (cs ds : List SchemaColumn)
      → t < 2 ^ 64
      → u < 2 ^ 64
      → AllFit cs
      → AllFit ds
      → length cs < 2 ^ 32
      → length ds < 2 ^ 32
      → schema_digest sha256 t cs ≡ schema_digest sha256 u ds
      → ((t ≡ u) × Perm cs ds) ⊎ Collision sha256
  unfolding schema_digest schema_code
  schema_digest-binds t u cs ds ht hu fc fd hc hd h =
      let less = λ (a b : SchemaColumn). ltb a.id b.id in
      let ps = insertion_sort less cs in
      let qs = insertion_sort less ds in
      elim (text-binds sha256 (schema_bytes t cs) (schema_bytes u ds) h) [
        | inr collide ↦ inr collide
        | inl same ↦
            let code =
              ap (drop 1)
                (sym (schema_bytes-schema_code t cs) ∙ same ∙ schema_bytes-schema_code u ds) in
            let (table, r1) =
              big_endian_eq 8 t u (big_endian 4 (length ps) ++ columns_code ps)
                (big_endian 4 (length qs) ++ columns_code qs) ht hu code in
            let (count, r2) =
              big_endian_eq 4 (length ps) (length qs) (columns_code ps) (columns_code qs)
                (omega (arith, length-insertion_sort less cs))
                (omega (arith, length-insertion_sort less ds)) r1 in
            inl (
              table,
              perm_of_sort less
                  (columns_code_eq ps qs (sort-AllFit cs fc) (sort-AllFit ds fd) count r2),
            )
      ]
