-- ===== src/Ui/Seeding.antt =====
-- The seeding and the connection tests of the dashboard: internal/ui/seed_api.go, internal/ui/testconn.go
-- and `healthCheck` of internal/ui/agents.go. Their texts in Korean are told by
-- constructors or in English, and the queries to the databases are parameters.
use mocking_box.Prelude.{
  ℕ, Bool, true, false, List, [], ◌∷◌, ◌++◌, Option, none, some, if◌then◌else◌, GoString, str, eqs,
  ℤ, pos, put, Result, ok, fail,
}
use mocking_box.Config.{MySql, Datastore, postgres_type, or_number}
use mocking_box.Seed.Pairs.{Seeded, seeded, stopped, crashed}
use mocking_box.Ui.Registry.{Reply, reply, json_error}

-- `Log` of the status
pub data Log : Type 0 where
  nothing started seeding_failed seeding_done : Log

-- `seedStatus`
pub record SeedStatus : Type 0 where
  pub running : Bool
  pub done : Bool
  pub log : Log
  pub error : GoString
  pub tables : ℕ
  pub rows : ℕ

-- `seedStart`, with the configuration's new datastores; true where `runSeed` is started
unfoldable pub seed_start : Result (List Datastore) → SeedStatus → Reply Bool × SeedStatus
seed_start (fail e) s = (json_error 500 (str "config: " ++ e), s)
seed_start (ok []) s = (json_error 400 (str "no new datastore"), s)
seed_start (ok (d ∷ ds)) s = if s.running then (json_error 409 (str "seeding already"), s) else (
  reply true,
  record { running = true; done = false; log = started; error = []; tables = 0; rows = 0 },
)

-- `runSeed`, from the end of `RunPairs`; a panic ends the program.
unfoldable pub run_seed : Seeded → SeedStatus → Option SeedStatus
run_seed crashed s = none
run_seed (stopped total e) s = some (record s { running = false; error = e; log = seeding_failed })
run_seed (seeded st) s = some (record s {
  running = false;
  done = true;
  tables = st.tables;
  rows = st.rows;
  log = seeding_done;
})

-- The body of `seedDiscover` and of `testConnection`
pub record Connection : Type 0 where
  pub type : GoString
  pub host : GoString
  pub user : GoString
  pub password : GoString
  pub database : GoString
  pub port : ℤ

-- The datastore of a body that asks for PostgreSQL
unfoldable pub pg_datastore : Connection → Datastore
unfolding or_number
pg_datastore c = record {
  name = [];
  type = postgres_type;
  host = c.host;
  port = or_number (c.port) (pos 5432);
  user = c.user;
  password = c.password;
  database = c.database;
  schemas = [];
  exclude = [];
  seed_from = none;
}

unfoldable pub mysql_source : Connection → MySql
unfolding or_number
mysql_source c = record {
  host = c.host;
  port = or_number (c.port) (pos 3306);
  user = c.user;
  password = c.password;
}

found {ℓ} : {A : Type ℓ} → Result A → Reply A
found (ok schemas) = reply schemas
found (fail e) = json_error 502 e

-- `seedDiscover`, for a body that is decoded, or the error
unfoldable pub seed_discover {ℓ} :
    {A : Type ℓ} → (Datastore → Result A) → (MySql → Result A) → Result Connection → Reply A
unfolding eqs pg_datastore mysql_source found
seed_discover pg_discover discover (fail e) = json_error 400 e
seed_discover pg_discover discover (ok c) =
    if eqs (c.host) []
    then json_error 400 (str "host is required")
    else if eqs (c.type) postgres_type
    then found (pg_discover (pg_datastore c))
    else found (discover (mysql_source c))

-- `testConnection`
unfoldable pub test_connection {ℓ} :
    {A : Type ℓ} → (Datastore → A) → (MySql → A) → Result Connection → Reply A
unfolding eqs pg_datastore mysql_source
test_connection pg_health check_mysql (fail e) = json_error 400 e
test_connection pg_health check_mysql (ok c) =
    if eqs (c.host) []
    then json_error 400 (str "host required")
    else if eqs (c.type) postgres_type
    then reply (pg_health (pg_datastore c))
    else reply (check_mysql (mysql_source c))

module _ {ℓ} {A : Type ℓ} (check_http : GoString → A) (check_datastore : Datastore → A) where
  -- The checks of the datastores, the last one for a name
  unfoldable pub check_all : List Datastore → List (GoString × A) → List (GoString × A)
  unfolding put
  check_all [] out = out
  check_all (d ∷ ds) out = check_all ds (put (str "db:" ++ d.name) (check_datastore d) out)

  -- `healthCheck` of a configuration, whose checks end in their order
  unfoldable pub health_check : GoString → GoString → List Datastore → List (GoString × A)
  unfolding eqs check_all put
  health_check old_url new_url ds = check_all ds (
      put (str "new_api") (check_http new_url)
        (if eqs old_url [] then [] else put (str "old_api") (check_http old_url) []))
