-- ===== src/Seed/Tables.antt =====
-- `Run` with `copySchema`, `copyTable` and `writeMarker` of internal/seed/seed.go. A source answers the
-- queries, with their rows in full and the error that ends them; a value of a row is raw bytes or NULL.
-- An error is its cause, without the texts that the callers put before it.
use mocking_box.Prelude.{
  ℕ, suc, ◌+◌, Bool, ◌||◌, List, [], ◌∷◌, ◌++◌, map, Option, none, some, leb, if◌then◌else◌, any,
  length, GoString, str, eqs, join, repeat, trim_suffix, Result, ok, fail, then_run,
}

-- An argument of a statement.
pub data Arg : Type 0 where
  null : Arg
  bytes : GoString → Arg
  number : ℕ → Arg

abbrev pub Row : Type 0
Row = List (Option GoString)

-- The rows of `SELECT *`, with the error that `rows.Err` gives after them.
pub record Table : Type 0 where
  pub columns : List GoString
  pub rows : List Row
  pub rows_err : Option GoString

pub record Source : Type 0 where
  pub addr : GoString
  pub databases : Result (List GoString)
  pub create_database : GoString → Result GoString
  pub list_tables : GoString → Result (List GoString)
  pub create_table : GoString → GoString → Result GoString
  pub select : GoString → GoString → Result Table

pub record Target : Type 1 where
  pub State : Type 0
  pub exec : GoString → List Arg → State → Result (Unit {0}) × State

-- `Stats`
pub record Stats : Type 0 where
  pub schemas : List GoString
  pub tables : ℕ
  pub rows : ℕ

-- `Options`
pub record Options : Type 0 where
  pub schemas : List GoString
  pub exclude_tables : List GoString
  pub golden_name : GoString

abbrev pub marker_schema : GoString
marker_schema = str "_mockingbox"

-- `batchRows`
abbrev pub batch_rows : ℕ
batch_rows = 500

-- `systemSchemas`
unfoldable pub is_system : GoString → Bool
unfolding eqs
is_system s = any (eqs s) (
    str "mysql"
    ∷ str "sys"
    ∷ str "information_schema"
    ∷ str "performance_schema"
    ∷ marker_schema
    ∷ [])

-- The loop of `discoverSchemas`.
unfoldable pub user_schemas : List GoString → List GoString
unfolding is_system
user_schemas [] = []
user_schemas (s ∷ ss) = let rest = user_schemas ss in if is_system s then rest else s ∷ rest

-- `exclude[table] || exclude[schema+"."+table]`
unfoldable pub is_excluded : List GoString → GoString → GoString → Bool
unfolding eqs
is_excluded exclude schema table =
    any (eqs table) exclude || any (eqs (schema ++ (str "." ++ table))) exclude

-- A table's name in a statement.
unfoldable pub quoted : GoString → GoString → GoString
quoted schema table = str "`" ++ (schema ++ (str "`.`" ++ (table ++ str "`")))

abbrev comma : GoString
comma = str ","

-- `stmt` of `flush`, for a number of rows
unfoldable pub insert_statement : GoString → GoString → List GoString → ℕ → GoString
unfolding quoted join repeat trim_suffix
insert_statement schema table cols n =
    let col_list = str "`" ++ (join (str "`,`") cols ++ str "`") in
    let row = str "(" ++ (trim_suffix (repeat (str "?,") (length cols)) comma ++ str ")") in
    str "INSERT INTO "
    ++ (quoted schema table
        ++ (str " ("
            ++ (col_list ++ (str ") VALUES " ++ trim_suffix (repeat (row ++ comma) n) comma))))

abbrev arg_of : Option GoString → Arg
arg_of none = null
arg_of (some raw) = bytes raw

-- `batch`: the values of its rows, one after another
unfoldable pub batch_args : List Row → List Arg
batch_args [] = []
batch_args (row ∷ rows) = map arg_of row ++ batch_args rows

module _ (T : Target) where
  -- A computation on the target that may fail.
  abbrev pub Run : Type 0 → Type 0
  Run A = T.State → Result A × T.State

  exec_all : List GoString → Run (Unit {0})
  exec_all [] s = (ok tt, s)
  exec_all (stmt ∷ stmts) s = then_run (T.exec stmt [] s) (λ _. exec_all stmts)

  module _ (schema table : GoString) (cols : List GoString) where
    -- The statement of `flush` for a batch that is not empty: the rows so far
    unfoldable pub insert : List Row → ℕ → Run ℕ
    unfolding insert_statement batch_args
    insert batch total s =
        then_run (T.exec (insert_statement schema table cols (length batch)) (batch_args batch) s)
          (λ _ s'. (ok (total + length batch), s'))

    -- `flush`, which leaves an empty batch
    unfoldable pub flush : List Row → ℕ → Run ℕ
    unfolding insert
    flush [] total s = (ok total, s)
    flush (r ∷ batch) total s = insert (r ∷ batch) total s

    -- What follows the loop over the rows.
    unfoldable pub finish : Option GoString → List Row → ℕ → Run ℕ
    unfolding flush
    finish (some e) batch total s = (fail e, s)
    finish none batch total s = flush batch total s

    -- The loop of `copyTable` over the rows, with the rows of the batch and those inserted so far.
    unfoldable pub copy_rows : List Row → Option GoString → List Row → ℕ → Run ℕ
    unfolding flush finish
    copy_rows [] rows_err batch total s = finish rows_err batch total s
    copy_rows (r ∷ rows) rows_err batch total s =
        let grown = batch ++ r ∷ [] in
        if leb batch_rows (length grown)
        then then_run (flush grown total s) (copy_rows rows rows_err [])
        else copy_rows rows rows_err grown total s

  -- `copyTable` from the rows of the source on
  unfoldable pub copy_data : GoString → GoString → Result Table → Run ℕ
  unfolding copy_rows
  copy_data schema table (fail e) s = (fail e, s)
  copy_data schema table (ok t) s = go (t.columns)
    where
      go : List GoString → Result ℕ × T.State
      go [] = (ok 0, s)
      go (c ∷ cols) = copy_rows schema table (c ∷ cols) (t.rows) (t.rows_err) [] 0 s

  module _ (src : Source) where
    -- `copyTable`
    unfoldable pub copy_table : GoString → GoString → Run ℕ
    unfolding exec_all copy_data
    copy_table schema table s = go (src.create_table schema table)
      where
        go : Result GoString → Result ℕ × T.State
        go (fail e) = (fail e, s)
        go (ok create) =
            then_run (exec_all ((str "USE `" ++ (schema ++ str "`")) ∷ create ∷ []) s)
              (λ _. copy_data schema table (src.select schema table))

    -- The loop of `copySchema` over the tables.
    unfoldable pub copy_tables : List GoString → GoString → List GoString → Stats → Run Stats
    unfolding is_excluded copy_table
    copy_tables exclude schema [] stats s = (ok stats, s)
    copy_tables exclude schema (table ∷ tables) stats s =
        if is_excluded exclude schema table
        then copy_tables exclude schema tables stats s
        else then_run (copy_table schema table s) (λ n s'.
          copy_tables exclude schema tables
            (record stats { tables = suc (stats.tables); rows = stats.rows + n }) s')

    -- `copySchema`
    unfoldable pub copy_schema : List GoString → GoString → Stats → Run Stats
    unfolding exec_all copy_tables
    copy_schema exclude schema stats s =
        then_run (exec_all ((str "DROP DATABASE IF EXISTS `" ++ (schema ++ str "`")) ∷ []) s)
          (λ _. created (src.create_database schema))
      where
        listed : Result (List GoString) → Run Stats
        listed (fail e) s' = (fail e, s')
        listed (ok tables) s' = copy_tables exclude schema tables stats s'

        created : Result GoString → Run Stats
        created (fail e) s' = (fail e, s')
        created (ok create) s' =
            then_run (exec_all (create ∷ []) s') (λ _. listed (src.list_tables schema))

    unfoldable pub copy_schemas : List GoString → List GoString → Stats → Run Stats
    unfolding copy_schema
    copy_schemas exclude [] stats s = (ok stats, s)
    copy_schemas exclude (schema ∷ schemas) stats s =
        then_run (copy_schema exclude schema stats s) (copy_schemas exclude schemas)

    -- `writeMarker`, at a time that is formatted already
    unfoldable pub write_marker : GoString → List GoString → GoString → Stats → Run (Unit {0})
    unfolding exec_all join
    write_marker now schemas golden_name stats s =
        then_run
          (exec_all
            ((str "CREATE DATABASE IF NOT EXISTS `" ++ (marker_schema ++ str "`"))
              ∷ (str "CREATE TABLE IF NOT EXISTS "
                  ++ (marker_schema
                      ++ (str
                            ".seed_info (`id` BIGINT AUTO_INCREMENT PRIMARY KEY,`seeded_at` DATETIME NOT NULL,"
                          ++ (str "`source` VARCHAR(255) NOT NULL,`schemas` VARCHAR(500) NOT NULL,"
                              ++ str
                                  "`golden` VARCHAR(255) NOT NULL,`tables_copied` INT NOT NULL,`rows_copied` BIGINT NOT NULL)"))))
              ∷ [])
            s)
          (λ _.
            T.exec
              (str "INSERT INTO "
                ++ (marker_schema
                    ++ (str
                          ".seed_info (`seeded_at`,`source`,`schemas`,`golden`,`tables_copied`,`rows_copied`)"
                        ++ str " VALUES (?,?,?,?,?,?)")))
              (bytes now
                ∷ bytes (src.addr)
                ∷ bytes (join comma schemas)
                ∷ bytes golden_name
                ∷ number (stats.tables)
                ∷ number (stats.rows)
                ∷ []))

    -- `opts.Schemas`, or those that are discovered.
    unfoldable pub chosen_schemas : List GoString → Result (List GoString)
    unfolding user_schemas
    chosen_schemas (s ∷ ss) = ok (s ∷ ss)
    chosen_schemas [] = go (src.databases)
      where
        go : Result (List GoString) → Result (List GoString)
        go (fail e) = fail e
        go (ok all) = ok (user_schemas all)

    -- `Run`, once both connections are open
    unfoldable pub run : Options → GoString → Run Stats
    unfolding chosen_schemas copy_schemas write_marker
    run opts now s = go (chosen_schemas (opts.schemas))
      where
        go : Result (List GoString) → Result Stats × T.State
        go (fail e) = (fail e, s)
        go (ok []) = (fail (str "no non-system schemas found on source"), s)
        go (ok (schema ∷ schemas)) =
            then_run
              (copy_schemas (opts.exclude_tables) (schema ∷ schemas)
                (record { schemas = schema ∷ schemas; tables = 0; rows = 0 }) s)
              (λ stats s'.
                then_run (write_marker now (schema ∷ schemas) (opts.golden_name) stats s')
                  (λ _ s''. (ok stats, s'')))
