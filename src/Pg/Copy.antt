-- ===== src/Pg/Copy.antt =====
-- The copy of internal/pg/copy.go. A source answers the catalogue's queries; a target executes statements
-- and takes the rows of a table; `pgx.Identifier.Sanitize` and `Addr` are parameters. An error is its
-- cause, without the texts that the callers put before it.
use mocking_box.Prelude.{
  ℕ, suc, ◌+◌, Bool, List, [], ◌∷◌, ◌++◌, map, Option, none, some, if◌then◌else◌, GoString, str,
  join, contains, replace_byte, after_first, before_byte, Result, ok, fail, then_run,
}
use mocking_box.Seed.Tables.{Stats, is_excluded}
use mocking_box.Pg.Connection.{is_system}

-- `columnDef`
pub record ColumnDef : Type 0 where
  pub name : GoString
  pub typ : GoString
  pub not_null : Bool
  pub deflt : Option GoString

-- The answers of the source. An enum is its name with its labels; `copy_out` is the error that ends the
-- rows of a table.
pub record Source : Type 0 where
  pub addr : GoString
  pub namespaces : Result (List GoString)
  pub enums : GoString → Result (List (GoString × List GoString))
  pub list_tables : GoString → Result (List GoString)
  pub columns : GoString → GoString → Result (List ColumnDef)
  pub primary_key : GoString → GoString → Result (List GoString)
  pub copy_out : GoString → Option GoString

-- An argument of the marker's statement
pub data Arg : Type 0 where
  text : GoString → Arg
  number : ℕ → Arg

-- `exec` is a statement; `copy_in` is `COPY … FROM STDIN` for a table and the rows that the source
-- gives of it.
pub record Target : Type 1 where
  pub State : Type 0
  pub exec : GoString → List Arg → State → Result (Unit {0}) × State
  pub copy_in : GoString → State → Result ℕ × State
  -- `pgx.Identifier{…}.Sanitize()`
  pub sanitize : List GoString → GoString

-- `quoteLiteral`, and the quoting of a label
unfoldable pub quote_literal : GoString → GoString
unfolding replace_byte
quote_literal s = b'\'' ∷ (replace_byte b'\'' (b'\'' ∷ b'\'' ∷ []) s ++ b'\'' ∷ [])

sequence_in : Option GoString → GoString
unfolding before_byte
sequence_in none = []
sequence_in (some rest) = go (before_byte b'\'' rest)
  where
    go : Option GoString → GoString
    go none = []
    go (some name) = name

-- `sequenceName`
unfoldable pub sequence_name : GoString → GoString
unfolding sequence_in after_first
sequence_name deflt = sequence_in (after_first (str "nextval('") deflt)

-- The loop of `listSchemas`
unfoldable pub user_schemas : List GoString → List GoString
unfolding is_system
user_schemas [] = []
user_schemas (s ∷ ss) = let rest = user_schemas ss in if is_system s then rest else s ∷ rest

module _ (T : Target) where
  abbrev pub Run : Type 0 → Type 0
  Run A = T.State → Result A × T.State

  -- `_, _ = dconn.Exec(ctx, stmt)`
  unfoldable pub exec_ignoring : GoString → T.State → T.State
  exec_ignoring stmt s = (T.exec stmt [] s).1

  pub exec_all : List GoString → Run (Unit {0})
  exec_all [] s = (ok tt, s)
  exec_all (stmt ∷ stmts) s = then_run (T.exec stmt [] s) (λ _. exec_all stmts)

  -- The loop that creates the sequences of the defaults
  unfoldable pub create_sequences : List ColumnDef → T.State → T.State
  unfolding sequence_name exec_ignoring
  create_sequences [] s = s
  create_sequences (c ∷ cols) s = create_sequences cols (go (c.deflt))
    where
      named : GoString → T.State
      named [] = s
      named (b ∷ seq) = exec_ignoring (str "CREATE SEQUENCE IF NOT EXISTS " ++ b ∷ seq) s

      go : Option GoString → T.State
      go none = s
      go (some deflt) = named (sequence_name deflt)

  default_of : Option GoString → GoString
  default_of none = []
  default_of (some deflt) = str " DEFAULT " ++ deflt

  -- `def` of a column
  unfoldable pub column_text : ColumnDef → GoString
  unfolding default_of
  column_text c =
      T.sanitize (c.name ∷ [])
      ++ (str " "
          ++ (c.typ ++ (default_of (c.deflt) ++ (if c.not_null then str " NOT NULL" else []))))

  -- The statement of the primary key, whose error is dropped
  unfoldable pub add_primary_key : GoString → Result (List GoString) → T.State → T.State
  unfolding exec_ignoring join
  add_primary_key qtable (fail e) s = s
  add_primary_key qtable (ok []) s = s
  add_primary_key qtable (ok (c ∷ pk)) s =
      let cols = join (str ", ") (map (λ c. T.sanitize (c ∷ [])) (c ∷ pk)) in
      exec_ignoring
        (str "ALTER TABLE " ++ (qtable ++ (str " ADD PRIMARY KEY (" ++ (cols ++ str ")")))) s

  -- `resetSequences`
  unfoldable pub reset_sequences : GoString → GoString → List ColumnDef → T.State → T.State
  unfolding contains exec_ignoring
  reset_sequences schema table [] s = s
  reset_sequences schema table (c ∷ cols) s = reset_sequences schema table cols (go (c.deflt))
    where
      stmt : GoString
      stmt =
          str "SELECT setval(pg_get_serial_sequence('"
          ++ (schema
              ++ (str "."
                  ++ (table
                      ++ (str "', '"
                          ++ (c.name
                              ++ (str "'), COALESCE((SELECT MAX("
                                  ++ (T.sanitize (c.name ∷ [])
                                      ++ (str ") FROM "
                                          ++ (T.sanitize (schema ∷ table ∷ [])
                                              ++ str "), 1))")))))))))

      go : Option GoString → T.State
      go none = s
      go (some deflt) = if contains deflt (str "nextval(") then exec_ignoring stmt s else s

  -- The end of `streamCopy`: the source's error counts first.
  unfoldable pub copied_rows : Option GoString → Result ℕ × T.State → Result ℕ × T.State
  copied_rows (some e) (r, s) = (fail e, s)
  copied_rows none r = r

  module _ (src : Source) where
    -- `streamCopy`
    unfoldable pub stream_copy : GoString → Run ℕ
    unfolding copied_rows
    stream_copy qtable s = copied_rows (src.copy_out qtable) (T.copy_in qtable s)

    -- `copyTable` for columns that are not empty
    unfoldable pub copy_columns : GoString → GoString → List ColumnDef → Run ℕ
    unfolding create_sequences exec_all column_text join add_primary_key stream_copy reset_sequences
    copy_columns schema table cols s =
        let qtable = T.sanitize (schema ∷ table ∷ []) in
        let defs = join (str ", ") (map column_text cols) in
        then_run
          (exec_all ((str "CREATE TABLE " ++ (qtable ++ (str " (" ++ (defs ++ str ")")))) ∷ [])
            (create_sequences cols s))
          (λ _ s1.
            then_run (stream_copy qtable (add_primary_key qtable (src.primary_key schema table) s1))
              (λ n s2. (ok n, reset_sequences schema table cols s2)))

    -- `copyTable`
    unfoldable pub copy_table : GoString → GoString → Run ℕ
    unfolding copy_columns
    copy_table schema table s = go (src.columns schema table)
      where
        go : Result (List ColumnDef) → Result ℕ × T.State
        go (fail e) = (fail e, s)
        go (ok []) = (ok 0, s)
        go (ok (c ∷ cols)) = copy_columns schema table (c ∷ cols) s

    -- The loop of `copySchema` over the tables
    unfoldable pub copy_tables : List GoString → GoString → List GoString → Stats → Run Stats
    unfolding is_excluded copy_table
    copy_tables exclude schema [] stats s = (ok stats, s)
    copy_tables exclude schema (table ∷ tables) stats s =
        if is_excluded exclude schema table
        then copy_tables exclude schema tables stats s
        else then_run (copy_table schema table s) (λ n.
          copy_tables exclude schema tables
            (record stats { tables = suc (stats.tables); rows = stats.rows + n }))

    -- The statements of `copyEnums`
    unfoldable pub enum_statements : GoString → List (GoString × List GoString) → List GoString
    unfolding quote_literal join
    enum_statements schema [] = []
    enum_statements schema ((name, labels) ∷ enums) =
        (str "CREATE TYPE "
          ++ (T.sanitize (schema ∷ name ∷ [])
              ++ (str " AS ENUM (" ++ (join (str ", ") (map quote_literal labels) ++ str ")"))))
        ∷ enum_statements schema enums

    -- `copyEnums`
    unfoldable pub copy_enums : GoString → Run (Unit {0})
    unfolding enum_statements exec_all
    copy_enums schema s = go (src.enums schema)
      where
        go : Result (List (GoString × List GoString)) → Result (Unit {0}) × T.State
        go (fail e) = (fail e, s)
        go (ok enums) = exec_all (enum_statements schema enums) s

    -- `copySchema`
    unfoldable pub copy_schema : List GoString → GoString → Stats → Run Stats
    unfolding exec_all copy_enums copy_tables
    copy_schema exclude schema stats s =
        let name = T.sanitize (schema ∷ []) in
        then_run
          (exec_all
            ((str "DROP SCHEMA IF EXISTS " ++ (name ++ str " CASCADE"))
              ∷ (str "CREATE SCHEMA " ++ name)
              ∷ [])
            s)
          (λ _ s1. then_run (copy_enums schema s1) (λ _. listed (src.list_tables schema)))
      where
        listed : Result (List GoString) → Run Stats
        listed (fail e) s' = (fail e, s')
        listed (ok tables) s' = copy_tables exclude schema tables stats s'

    unfoldable pub copy_schemas : List GoString → List GoString → Stats → Run Stats
    unfolding copy_schema
    copy_schemas exclude [] stats s = (ok stats, s)
    copy_schemas exclude (schema ∷ schemas) stats s =
        then_run (copy_schema exclude schema stats s) (copy_schemas exclude schemas)

    -- `writeMarker`
    unfoldable pub write_marker : List GoString → Stats → Run (Unit {0})
    unfolding exec_all join
    write_marker schemas stats s =
        then_run
          (exec_all
            (str "CREATE SCHEMA IF NOT EXISTS _mockingbox"
              ∷ (str
                    "CREATE TABLE IF NOT EXISTS _mockingbox.copy_info (id SERIAL PRIMARY KEY, copied_at TIMESTAMP NOT NULL DEFAULT now(), "
                  ++ str
                      "source TEXT NOT NULL, schemas TEXT NOT NULL, tables_copied INT NOT NULL, rows_copied BIGINT NOT NULL)")
              ∷ [])
            s)
          (λ _.
            T.exec
              (str
                "INSERT INTO _mockingbox.copy_info (source, schemas, tables_copied, rows_copied) VALUES ($1,$2,$3,$4)")
              (text (src.addr)
                ∷ text (join (str ",") schemas)
                ∷ number (stats.tables)
                ∷ number (stats.rows)
                ∷ []))

    -- `Copy`, from the schemas on
    unfoldable pub copy_into : List GoString → List GoString → Run Stats
    unfolding copy_schemas write_marker
    copy_into exclude schemas s =
        then_run
          (copy_schemas exclude schemas (record { schemas = schemas; tables = 0; rows = 0 }) s)
          (λ stats s1. then_run (write_marker schemas stats s1) (λ _ s2. (ok stats, s2)))

    -- `Copy`, once both connections are open
    unfoldable pub copy : List GoString → List GoString → Run Stats
    unfolding copy_into user_schemas
    copy (schema ∷ schemas) exclude s = copy_into exclude (schema ∷ schemas) s
    copy [] exclude s = go (src.namespaces)
      where
        go : Result (List GoString) → Result Stats × T.State
        go (fail e) = (fail e, s)
        go (ok all) = copy_into exclude (user_schemas all) s
