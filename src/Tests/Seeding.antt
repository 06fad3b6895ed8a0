-- ===== src/Tests/Seeding.antt =====
-- Witnesses for the theorems on the seeding.
use mocking_box.Prelude.{
  ◌≡◌, ◌≢◌, refl, ℕ, zero, suc, ◌<◌, List, [], ◌∷◌, ◌++◌, All, none, some, GoString, str, pos,
  length, ok,
}
use mocking_box.Config.{Datastore, Stack}
use mocking_box.Seed.Tables.{Row, Target, Stats, batch_rows, copy_rows}
use mocking_box.Seed.Batches.{rows_of, IsFull, last_batch, insert_all, copy_rows-batches}
use mocking_box.Seed.Pairs.{Copies, run_pairs}
use mocking_box.Seed.Sums.{CopiedBy, all_schemas, all_tables, all_rows, run_pairs-ok}

-- A target that counts its statements.
abbrev counter : Target
counter = record { State = ℕ; exec = λ stmt args s. (ok tt, suc s) }

abbrev many : ℕ → List Row
many zero = []
many (suc n) = (some (str "x") ∷ none ∷ []) ∷ many n

copy_rows-batches_example :
    (batches : List (List Row)) × (rest : List Row) × ((rows_of batches ++ rest ≡ many 502)
      × (All IsFull batches
          × ((length rest < batch_rows)
              × (copy_rows counter
                    (str "shop")
                    (str "orders")
                    (str "id" ∷ str "note" ∷ [])
                    (many 502)
                    none
                    []
                    0
                    0
                  ≡ insert_all counter
                      (str "shop")
                      (str "orders")
                      (str "id" ∷ str "note" ∷ [])
                      (batches ++ last_batch rest)
                      0
                      0))))
copy_rows-batches_example =
    copy_rows-batches counter (str "shop") (str "orders") (str "id" ∷ str "note" ∷ []) (many 502) 0

abbrev shop : GoString → GoString → Datastore
shop name type = record {
  name = name;
  type = type;
  host = str "db";
  port = pos 3306;
  user = str "app";
  password = [];
  database = [];
  schemas = [];
  exclude = [];
  seed_from = none;
}

abbrev stack : Stack
stack = record {
  name = [];
  base_url = str "http://x";
  mysql = none;
  datastores = shop (str "a") (str "mysql") ∷ shop (str "b") (str "postgres") ∷ [];
}

abbrev copied_stats : ℕ → Stats
copied_stats n = record { schemas = str "s" ∷ []; tables = 1; rows = n }

-- Copies that all succeed.
abbrev copies : Copies
copies = record {
  State = ℕ;
  pg_copy = λ od nd schemas exclude s. (ok (copied_stats 5), suc s);
  open_error = λ m s. none;
  mysql_run = λ o n opts s. (ok (copied_stats 3), suc s);
}

abbrev total : Stats
total = record { schemas = str "s" ∷ str "s" ∷ []; tables = 2; rows = 8 }

run_pairs-ok_example :
    (stack.datastores ≢ [])
    × ((sts : List Stats) × (CopiedBy copies [] stack (stack.datastores) 0 sts 2
          × ((total.schemas ≡ all_schemas sts)
              × ((total.tables ≡ all_tables sts) × (total.rows ≡ all_rows sts)))))
unfolding run_pairs
run_pairs-ok_example = run_pairs-ok copies [] stack stack total 0 2 refl
