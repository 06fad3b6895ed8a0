-- ===== src/Cli/Seeding.antt =====
-- `cmdSeed` of cmd/mockingbox/main.go, with its flags' values; `strconv.Atoi`, `config.Load` and `seed.Run`
-- of two connections are parameters. A fatal error exits with 1.
use mocking_box.Prelude.{
  ℕ, ◌||◌, List, [], ◌∷◌, Option, none, some, if◌then◌else◌, GoString, eqs, split, cut, trim_space,
  ℤ, pos, Result, ok, fail,
}
use mocking_box.Config.{MySql, Config, Seconds}
use mocking_box.Config.Choice.{primary_mysql}
use mocking_box.Seed.Tables.{Options, Stats}

pub record SeedFlags : Type 0 where
  pub config : GoString
  pub from : GoString
  pub from_user : GoString
  pub from_password : GoString
  pub schemas : GoString
  pub exclude_tables : GoString
  pub golden : GoString

-- The port of a text that is a number, or 3306
port_or_default : Option ℤ → ℤ
port_or_default none = pos 3306
port_or_default (some v) = v

-- The host and the port of `--from`
unfoldable pub host_port : (GoString → Option ℤ) → GoString → GoString × ℤ
unfolding cut port_or_default
host_port atoi from = go (cut b':' from)
  where
    go : Option (GoString × GoString) → GoString × ℤ
    go none = (from, pos 3306)
    go (some (host, port)) = (host, port_or_default (atoi port))

-- `src`
unfoldable pub source_of : (GoString → Option ℤ) → SeedFlags → MySql
unfolding host_port
source_of atoi flags =
    let (host, port) = host_port atoi (flags.from) in
    record { host = host; port = port; user = flags.from_user; password = flags.from_password }

-- The names that are not blank, without the spaces around them
unfoldable pub table_names : List GoString → List GoString
unfolding trim_space
table_names [] = []
table_names (t ∷ ts) = add (trim_space t) (table_names ts)
  where
    add : GoString → List GoString → List GoString
    add [] rest = rest
    add (c ∷ name) rest = (c ∷ name) ∷ rest

-- `opts`
unfoldable pub seed_options : SeedFlags → Options
unfolding split table_names eqs
seed_options flags = record {
  schemas = if eqs (flags.schemas) [] then [] else split b',' (flags.schemas);
  exclude_tables = table_names (split b',' (flags.exclude_tables));
  golden_name = flags.golden;
}

module _ {ℓ} {S : Type ℓ} {T : Seconds} (atoi : GoString → Option ℤ)
    (load : GoString → Result (Config T))
    (seed_run : MySql → MySql → Options → S → Result Stats × S) where
  seed_status : Result Stats × S → ℕ × S
  seed_status (ok st, s) = (0, s)
  seed_status (fail e, s) = (1, s)

  seed_into : SeedFlags → Option MySql → S → ℕ × S
  unfolding seed_status source_of seed_options
  seed_into flags none s = (1, s)
  seed_into flags (some dst) s =
      seed_status (seed_run (source_of atoi flags) dst (seed_options flags) s)

  seed_config : SeedFlags → Result (Config T) → S → ℕ × S
  unfolding seed_into primary_mysql
  seed_config flags (fail e) s = (1, s)
  seed_config flags (ok cfg) s = seed_into flags (primary_mysql (cfg.new.datastores)) s

  -- `cmdSeed`
  unfoldable pub cmd_seed : SeedFlags → S → ℕ × S
  unfolding eqs seed_config
  cmd_seed flags s =
      if eqs (flags.config) [] || eqs (flags.from) []
      then (2, s)
      else seed_config flags (load (flags.config)) s
