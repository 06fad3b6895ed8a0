-- ===== src/Seed/Pairs.antt =====
-- `RunPairs` of internal/seed/seed.go, and `Run` with its connections. The copy of one pair is a
-- parameter: `pg.Copy`, or `Run` on the two MySQL connections. Errors in Korean are told in English.
use mocking_box.Prelude.{
  ◌+◌, List, [], ◌∷◌, ◌++◌, Option, none, some, if◌then◌else◌, GoString, str, eqs, Result, ok, fail,
}
use mocking_box.Config.{Datastore, MySql, Stack, postgres_type}
use mocking_box.Config.Choice.{mysql_of, datastore_by_name}
use mocking_box.Seed.Tables.{Options, Stats, Source, Target, run}

-- `Run` with `open` of the source and of the target
unfoldable pub run_opened :
    (T : Target)
    → (MySql → Result Source)
    → (MySql → T.State → Option GoString)
    → GoString
    → MySql
    → MySql
    → Options
    → T.State
    → Result Stats × T.State
unfolding run
run_opened T open_source target_error now src dst opts s = source (open_source src)
  where
    target : Source → Option GoString → Result Stats × T.State
    target db (some e) = (fail (str "target: " ++ e), s)
    target db none = run T db opts now s

    source : Result Source → Result Stats × T.State
    source (fail e) = (fail (str "source: " ++ e), s)
    source (ok db) = target db (target_error dst s)

-- What a copy gives: its statistics, or its error; a nil connection is dereferenced by `open`.
pub data Copied : Type 0 where
  copied : Stats → Copied
  failed : GoString → Copied
  panicked : Copied

-- What `RunPairs` gives: the totals, and the error with the totals so far.
pub data Seeded : Type 0 where
  seeded : Stats → Seeded
  stopped : Stats → GoString → Seeded
  crashed : Seeded

-- The copies over a state of the databases.
pub record Copies : Type 1 where
  pub State : Type 0
  pub pg_copy : Datastore → Datastore → List GoString → List GoString → State → Result Stats × State
  -- `open` of the source: its error
  pub open_error : MySql → State → Option GoString
  pub mysql_run : MySql → MySql → Options → State → Result Stats × State

-- `exclude`: the names that are not empty
unfoldable pub excluded : List GoString → List GoString
excluded [] = []
excluded ([] ∷ ts) = excluded ts
excluded ((c ∷ t) ∷ ts) = (c ∷ t) ∷ excluded ts

-- `total` after a pair
unfoldable pub added : Stats → Stats → Stats
added total st = record {
  schemas = total.schemas ++ st.schemas;
  tables = total.tables + st.tables;
  rows = total.rows + st.rows;
}

abbrev pub zero_stats : Stats
zero_stats = record { schemas = []; tables = 0; rows = 0 }

-- The error of a datastore, by its name.
abbrev pub of_datastore : GoString → GoString → GoString
of_datastore name e = str "datastore \"" ++ (name ++ (str "\": " ++ e))

unfoldable pub outcome {ℓ} : {S : Type ℓ} → Result Stats × S → Copied × S
outcome (ok st, s) = (copied st, s)
outcome (fail e, s) = (failed e, s)

-- The nil target is dereferenced once the source is open.
unfoldable pub no_target : Option GoString → Copied
no_target none = panicked
no_target (some e) = failed e

module _ (C : Copies) where
  -- `Run(od.MySQL(), nd.MySQL(), opts)`: `open` dereferences its argument
  unfoldable pub run_mysql : Options → Option MySql → Option MySql → C.State → Copied × C.State
  unfolding outcome no_target
  run_mysql opts none n s = (panicked, s)
  run_mysql opts (some o) none s = (no_target (C.open_error o s), s)
  run_mysql opts (some o) (some n) s = outcome (C.mysql_run o n opts s)

  -- The copy of one pair, by the type of the new datastore
  unfoldable pub copy_pair : GoString → Datastore → Datastore → C.State → Copied × C.State
  unfolding eqs excluded run_mysql mysql_of outcome
  copy_pair golden_name od nd s =
      if eqs (nd.type) postgres_type
      then outcome (C.pg_copy od nd (od.schemas) (excluded (od.exclude)) s)
      else run_mysql
          (record {
            schemas = od.schemas;
            exclude_tables = excluded (od.exclude);
            golden_name = golden_name;
          })
          (mysql_of od) (mysql_of nd) s

  unfoldable pub after_pair :
      Datastore → Stats → (Stats → C.State → Seeded × C.State) → Copied × C.State → Seeded × C.State
  unfolding added
  after_pair nd total rest (copied st, s) = rest (added total st) s
  after_pair nd total rest (failed e, s) = (stopped total (of_datastore (nd.name) e), s)
  after_pair nd total rest (panicked, s) = (crashed, s)

  -- One turn of the loop of `RunPairs`, with what follows it
  unfoldable pub seed_pair :
      GoString
      → Datastore
      → Option Datastore
      → Stats
      → (Stats → C.State → Seeded × C.State)
      → C.State
      → Seeded × C.State
  unfolding copy_pair after_pair
  seed_pair golden_name nd none total rest s =
      (stopped total (of_datastore (nd.name) (str "no matching reference (old) DB")), s)
  seed_pair golden_name nd (some od) total rest s =
      if eqs (od.host) []
      then (stopped total (of_datastore (nd.name) (str "reference (old) connection is empty")), s)
      else after_pair nd total rest (copy_pair golden_name od nd s)

  -- The loop of `RunPairs`
  unfoldable pub seed_pairs : GoString → Stack → List Datastore → Stats → C.State → Seeded × C.State
  unfolding seed_pair datastore_by_name
  seed_pairs golden_name old [] total s = (seeded total, s)
  seed_pairs golden_name old (nd ∷ nds) total s =
      seed_pair golden_name nd (datastore_by_name (nd.name) (old.datastores)) total
        (seed_pairs golden_name old nds) s

  -- `RunPairs` on the new datastores
  unfoldable pub seed_all : GoString → Stack → List Datastore → C.State → Seeded × C.State
  unfolding seed_pairs
  seed_all golden_name old [] s = (stopped zero_stats (str "no new datastore"), s)
  seed_all golden_name old (nd ∷ nds) s = seed_pairs golden_name old (nd ∷ nds) zero_stats s

  -- `RunPairs`
  unfoldable pub run_pairs : GoString → Stack → Stack → C.State → Seeded × C.State
  unfolding seed_all
  run_pairs golden_name old new = seed_all golden_name old (new.datastores)
