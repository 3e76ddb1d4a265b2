-- ===== src/SchemaEngine/Mysql.antt =====
-- internal/adapter/mysql/ddl.go: MySQL's schema-change statements.
use datagit.Prelude.{[], ◌∷◌, ◌++◌, Bytes, codes, nat_beq, if◌then◌else◌}
use datagit.SchemaEngine.Plan.{DdlGen}
use datagit.SchemaEngine.Postgres.{double_mark}

-- `quoteIdent` of internal/adapter/mysql/mysql.go.
unfoldable pub quote_ident : Bytes → Bytes
unfolding double_mark
quote_ident s = b'`' ∷ double_mark b'`' s ++ b'`' ∷ []

-- The replacer of `sqlString`: a backslash before each backslash and each quote.
unfoldable pub escape_bytes : Bytes → Bytes
escape_bytes [] = []
escape_bytes (c ∷ s) =
    let rest = escape_bytes s in
    if nat_beq c b'\\' then c ∷ c ∷ rest else if nat_beq c b'\'' then b'\\' ∷ c ∷ rest else c ∷ rest

-- `sqlString`
unfoldable pub sql_string : Bytes → Bytes
unfolding escape_bytes
sql_string s = b'\'' ∷ escape_bytes s ++ b'\'' ∷ []

-- `guarded`
unfoldable pub guarded : Bytes → Bytes → Bytes
unfolding sql_string
guarded cond ddl =
    codes "SET @datagit_ddl := IF("
    ++ (cond
        ++ (codes ", "
            ++ (sql_string ddl
                ++ codes
                    ", 'DO 0'); PREPARE datagit_stmt FROM @datagit_ddl; EXECUTE datagit_stmt; DEALLOCATE PREPARE datagit_stmt")))

count_columns : Bytes → Bytes → Bytes → Bytes
unfolding sql_string
count_columns table col test =
    codes
      "(SELECT COUNT(*) FROM information_schema.COLUMNS WHERE TABLE_SCHEMA = DATABASE() AND TABLE_NAME = "
    ++ (sql_string table ++ (codes " AND COLUMN_NAME = " ++ (sql_string col ++ test)))

-- `columnMissing`
unfoldable pub column_missing : Bytes → Bytes → Bytes
unfolding count_columns
column_missing table col = count_columns table col (codes ") = 0")

-- `columnPresent`
unfoldable pub column_present : Bytes → Bytes → Bytes
unfolding count_columns
column_present table col = count_columns table col (codes ") > 0")

alter_table : Bytes → Bytes → Bytes
unfolding quote_ident
alter_table table rest = codes "ALTER TABLE " ++ (quote_ident table ++ rest)

-- `ddlGen`
unfoldable pub ddl_gen : DdlGen
unfolding alter_table quote_ident guarded column_missing column_present
ddl_gen = record {
  add_column = λ table col sql_type.
      guarded (column_missing table col)
        (alter_table table (codes " ADD COLUMN " ++ (quote_ident col ++ (codes " " ++ sql_type))));
  drop_column = λ table col.
      guarded (column_present table col)
        (alter_table table (codes " DROP COLUMN " ++ quote_ident col));
  deprecate_column = λ table col.
      codes "DO 0 /* datagit: "
      ++ (table ++ (codes "." ++ (col ++ codes " deprecated, pending drop */")));
  rename_column = λ table from to. guarded (column_present table from) (
      alter_table table
        (codes " RENAME COLUMN " ++ (quote_ident from ++ (codes " TO " ++ quote_ident to))));
  alter_column_type = λ table col sql_type.
      alter_table table (codes " MODIFY COLUMN " ++ (quote_ident col ++ (codes " " ++ sql_type)));
  set_not_null = λ table col sql_type. alter_table table (
      codes " MODIFY COLUMN "
      ++ (quote_ident col ++ (codes " " ++ (sql_type ++ codes " NOT NULL"))));
  drop_not_null = λ table col sql_type.
      alter_table table (
        codes " MODIFY COLUMN " ++ (quote_ident col ++ (codes " " ++ (sql_type ++ codes " NULL"))));
  preflight_not_null = λ table col.
      codes "SELECT 1/(CASE WHEN count(*) = 0 THEN 1 ELSE 0 END) FROM "
      ++ (quote_ident table ++ (codes " WHERE " ++ (quote_ident col ++ codes " IS NULL")));
}
