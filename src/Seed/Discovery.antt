-- ===== src/Seed/Discovery.antt =====
-- `Discover` and `ReadMarker` of internal/seed/seed.go, over the answers of the database. The rows of a
-- query are none where they cannot be scanned.
use mocking_box.Prelude.{ℕ, List, [], ◌∷◌, Option, none, some, GoString, Result, ok, fail, and_then}
use mocking_box.Seed.Tables.{user_schemas}

-- `TableInfo`
pub record TableInfo : Type 0 where
  pub name : GoString
  pub rows : ℕ
  pub size_mb : ℕ

-- `SchemaInfo`
pub record SchemaInfo : Type 0 where
  pub name : GoString
  pub tables : List TableInfo

-- `Marker`
pub record Marker : Type 0 where
  pub seeded_at : GoString
  pub source : GoString
  pub schemas : GoString
  pub golden : GoString
  pub tables : ℕ
  pub rows : ℕ

-- The loop over the rows of a schema's query
unfoldable pub scanned : List (Option TableInfo) → List TableInfo
scanned [] = []
scanned (none ∷ rows) = scanned rows
scanned (some t ∷ rows) = t ∷ scanned rows

-- The loop of `Discover` over the schemas; `tables_of` is the query of a schema.
unfoldable pub schema_infos :
    (GoString → Result (List (Option TableInfo))) → List GoString → Result (List SchemaInfo)
unfolding scanned
schema_infos tables_of [] = ok []
schema_infos tables_of (schema ∷ schemas) = and_then (tables_of schema) (λ rows.
    and_then (schema_infos tables_of schemas)
      (λ infos. ok ((record { name = schema; tables = scanned rows }) ∷ infos)))

-- `Discover`, with the error of the connection and the databases
unfoldable pub discover :
    Option GoString
    → Result (List GoString)
    → (GoString → Result (List (Option TableInfo)))
    → Result (List SchemaInfo)
unfolding user_schemas schema_infos
discover (some e) databases tables_of = fail e
discover none databases tables_of =
    and_then databases (λ all. schema_infos tables_of (user_schemas all))

-- `ReadMarker`, with the error of the connection and the newest row: a missing one is no error
unfoldable pub read_marker : Option GoString → Option Marker → Result (Option Marker)
read_marker (some e) row = fail e
read_marker none row = ok row
