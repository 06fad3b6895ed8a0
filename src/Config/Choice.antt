-- ===== src/Config/Choice.antt =====
-- The lookups of internal/config/config.go on a stack, and `For` of internal/wscapture/factory.go.
use mocking_box.Prelude.{
  Bool, true, ◌||◌, List, [], ◌∷◌, Option, none, some, if◌then◌else◌, GoString, eqs, Result, ok,
  fail,
}
use mocking_box.Config.{MySql, Datastore, Attribution, mysql_type, postgres_type, bad_type}

-- `Datastore.MySQL`
unfoldable pub mysql_of : Datastore → Option MySql
unfolding eqs
mysql_of d =
    if eqs (d.type) [] || eqs (d.type) mysql_type
    then some (record { host = d.host; port = d.port; user = d.user; password = d.password })
    else none

-- `PrimaryMySQL`
unfoldable pub primary_mysql : List Datastore → Option MySql
unfolding mysql_of
primary_mysql [] = none
primary_mysql (d ∷ ds) = go (mysql_of d) (primary_mysql ds)
  where
    go : Option MySql → Option MySql → Option MySql
    go (some m) rest = some m
    go none rest = rest

-- `DatastoreByName`
unfoldable pub datastore_by_name : GoString → List Datastore → Option Datastore
unfolding eqs
datastore_by_name name [] = none
datastore_by_name name (d ∷ ds) =
    let rest = datastore_by_name name ds in if eqs (d.name) name then some d else rest

-- `TrxCheck`
unfoldable pub trx_check : Attribution → Bool
trx_check a = go (a.check_innodb_trx)
  where
    go : Option Bool → Bool
    go none = true
    go (some b) = b

-- The two kinds of write-set source, with the datastore they watch.
pub data Source : Type 0 where
  binlog postgres : Datastore → Source

-- `For`: only the first datastore counts
unfoldable pub source_for : List Datastore → Result (Option Source)
unfolding eqs
source_for [] = ok none
source_for (d ∷ ds) =
    if eqs (d.type) [] || eqs (d.type) mysql_type
    then ok (some (binlog d))
    else if eqs (d.type) postgres_type
    then ok (some (postgres d))
    else fail (bad_type (d.name) (d.type))
