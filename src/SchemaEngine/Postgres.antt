-- ===== src/SchemaEngine/Postgres.antt =====
-- internal/adapter/postgres/ddl.go: PostgreSQL's schema-change statements.
use datagit.Prelude.{ℕ, [], ◌∷◌, ◌++◌, Bytes, codes, nat_beq, if◌then◌else◌}
use datagit.SchemaEngine.Plan.{DdlGen}

-- `strings.ReplaceAll(s, m, mm)` for one byte.
unfoldable pub double_mark : ℕ → Bytes → Bytes
double_mark m [] = []
double_mark m (c ∷ s) = let rest = double_mark m s in if nat_beq c m then c ∷ m ∷ rest else c ∷ rest

-- `quoteIdent` of internal/adapter/postgres/postgres.go.
unfoldable pub quote_ident : Bytes → Bytes
unfolding double_mark
quote_ident s = b'"' ∷ double_mark b'"' s ++ b'"' ∷ []

-- `ALTER TABLE` of a table, and what follows.
alter_table : Bytes → Bytes → Bytes
unfolding quote_ident
alter_table table rest = codes "ALTER TABLE " ++ (quote_ident table ++ rest)

-- `ddlGen`
unfoldable pub ddl_gen : DdlGen
unfolding alter_table quote_ident
ddl_gen = record {
  add_column = λ table col sql_type.
      alter_table table
        (codes " ADD COLUMN IF NOT EXISTS " ++ (quote_ident col ++ (codes " " ++ sql_type)));
  drop_column = λ table col. alter_table table (codes " DROP COLUMN IF EXISTS " ++ quote_ident col);
  deprecate_column = λ table col.
      codes "COMMENT ON COLUMN "
      ++ (quote_ident table
          ++ (codes "." ++ (quote_ident col ++ codes " IS 'datagit: deprecated, pending drop'")));
  rename_column = λ table from to.
      alter_table table
        (codes " RENAME COLUMN " ++ (quote_ident from ++ (codes " TO " ++ quote_ident to)));
  alter_column_type = λ table col sql_type.
      alter_table table
        (codes " ALTER COLUMN " ++ (quote_ident col ++ (codes " TYPE " ++ sql_type)));
  set_not_null = λ table col sql_type.
      alter_table table (codes " ALTER COLUMN " ++ (quote_ident col ++ codes " SET NOT NULL"));
  drop_not_null = λ table col sql_type.
      alter_table table (codes " ALTER COLUMN " ++ (quote_ident col ++ codes " DROP NOT NULL"));
  preflight_not_null = λ table col.
      codes "SELECT 1/(CASE WHEN count(*) = 0 THEN 1 ELSE 0 END) FROM "
      ++ (quote_ident table ++ (codes " WHERE " ++ (quote_ident col ++ codes " IS NULL")));
}
