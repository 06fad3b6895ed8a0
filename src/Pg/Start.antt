-- ===== src/Pg/Start.antt =====
-- `Start`, `setReplicaIdentityFull` and `Stop` of internal/pg/capture.go, as commands to the database over
-- its two connections.
use mocking_box.Prelude.{ℕ, List, [], ◌∷◌, ◌++◌, GoString, str, Result, ok, fail, then_run}
use mocking_box.Config.{Datastore}
use mocking_box.Pg.Connection.{database_name, conn_string}
use mocking_box.Pg.Capture.{slot_name, publication_name}
use mocking_box.Pg.Copy.{quote_literal}

-- The database: connections by their strings, statements of the admin connection, the table names that a
-- query lists, and the commands of replication.
pub record Server : Type 1 where
  pub State : Type 0
  pub connect_admin : GoString → State → Result (Unit {0}) × State
  pub connect_replication : GoString → State → Result (Unit {0}) × State
  pub exec : GoString → State → Result (Unit {0}) × State
  pub list : GoString → State → Result (List GoString) × State
  pub drop_slot : GoString → State → State
  -- With the plugin; the slot is temporary
  pub create_slot : GoString → GoString → State → Result (Unit {0}) × State
  -- The position of the log
  pub identify : State → Result ℕ × State
  pub start_replication : GoString → ℕ → List GoString → State → Result (Unit {0}) × State
  pub close_admin : State → State
  pub close_replication : State → State

module _ (V : Server) where
  -- A statement whose error is dropped
  unfoldable pub exec_ignoring : GoString → V.State → V.State
  exec_ignoring stmt s = (V.exec stmt s).1

  unfoldable pub alter_tables : List GoString → V.State → V.State
  unfolding exec_ignoring
  alter_tables [] s = s
  alter_tables (table ∷ tables) s =
      alter_tables tables
        (exec_ignoring (str "ALTER TABLE " ++ (table ++ str " REPLICA IDENTITY FULL")) s)

  altered : Result (List GoString) × V.State → V.State
  unfolding alter_tables
  altered (fail e, s) = s
  altered (ok tables, s) = alter_tables tables s

  -- `setReplicaIdentityFull`
  unfoldable pub set_replica_identity_full : List GoString → V.State → V.State
  unfolding altered quote_literal
  set_replica_identity_full [] s = s
  set_replica_identity_full (schema ∷ schemas) s = set_replica_identity_full schemas (
      altered (
        V.list
          (str
              "SELECT quote_ident(schemaname)||'.'||quote_ident(tablename) FROM pg_tables WHERE schemaname = "
            ++ quote_literal schema)
          s))

  -- `Start` from the publication on, which is created anew
  unfoldable pub publish : GoString → List GoString → V.State → Result (Unit {0}) × V.State
  unfolding exec_ignoring set_replica_identity_full
  publish pub_name schemas s =
      then_run
        (V.exec (str "CREATE PUBLICATION " ++ (pub_name ++ str " FOR ALL TABLES"))
          (exec_ignoring (str "DROP PUBLICATION IF EXISTS " ++ pub_name) s))
        (λ _ s1. (ok tt, set_replica_identity_full schemas s1))

  -- `Start` from the open replication connection on; it gives the position where the pump starts
  unfoldable pub replicate : GoString → GoString → V.State → Result ℕ × V.State
  replicate slot pub_name s =
      then_run (V.create_slot slot (str "pgoutput") (V.drop_slot slot s)) (λ _ s1.
        then_run (V.identify s1) (λ position s2.
          then_run
            (V.start_replication slot position
              (str "proto_version '2'"
                ∷ (str "publication_names '" ++ (pub_name ++ str "'"))
                ∷ str "messages 'true'"
                ∷ [])
              s2)
            (λ _ s3. (ok position, s3))))

  -- `Start`
  unfoldable pub start : GoString → Datastore → V.State → Result ℕ × V.State
  unfolding slot_name publication_name conn_string database_name publish replicate
  start name d s =
      let dsn = conn_string d (database_name d) in
      then_run (V.connect_admin dsn s) (λ _ s1.
        then_run (publish (publication_name name) (d.schemas) s1) (λ _ s2.
          then_run (V.connect_replication (dsn ++ str " replication=database") s2)
            (λ _. replicate (slot_name name) (publication_name name))))

  -- `Stop` of a source that has both connections
  unfoldable pub stop : GoString → V.State → V.State
  unfolding exec_ignoring publication_name
  stop name s = V.close_admin (
      exec_ignoring (str "DROP PUBLICATION IF EXISTS " ++ publication_name name)
        (V.close_replication s))
