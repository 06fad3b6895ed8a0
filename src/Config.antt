-- ===== src/Config.antt =====
-- The configuration of internal/config/config.go, after yaml.Unmarshal. A list of datastores holds no
-- null, and two fields share no datastore; `Seconds` is float64 with its test against 0.
pub mod Loaded
pub mod Choice
use mocking_box.Prelude.{
  ◌≡◌, refl, ℕ, suc, ◌+◌, Bool, true, false, not, ◌&&◌, ◌||◌, List, [], ◌∷◌, ◌++◌, map, Option,
  none, some, if◌then◌else◌, GoString, str, eqs, to_lower, itoa, trim_right_byte, ℤ, pos, int_eq,
  int_text, Result, ok, fail, and_then,
}

pub record MySql : Type 0 where
  pub host : GoString
  pub port : ℤ
  pub user : GoString
  pub password : GoString

-- `MySQL.Addr`
unfoldable pub mysql_addr : MySql → GoString
unfolding int_text
mysql_addr m = m.host ++ (str ":" ++ int_text (m.port))

-- `MySQL.DSN`
unfoldable pub dsn : MySql → GoString
unfolding int_text
dsn m =
    m.user
    ++ (str ":"
        ++ (m.password
            ++ (str "@tcp(" ++ (m.host ++ (str ":" ++ (int_text (m.port) ++ str ")/"))))))

pub record Datastore : Type 0 where
  pub name : GoString
  pub type : GoString
  pub host : GoString
  pub port : ℤ
  pub user : GoString
  pub password : GoString
  pub database : GoString
  pub schemas : List GoString
  pub exclude : List GoString
  pub seed_from : Option MySql

pub record Stack : Type 0 where
  pub name : GoString
  pub base_url : GoString
  pub mysql : Option MySql
  pub datastores : List Datastore

pub record Attribution : Type 0 where
  pub quiet_ms : ℤ
  pub timeout_ms : ℤ
  pub check_innodb_trx : Option Bool

pub record Noise : Type 0 where
  pub response_paths : List GoString
  pub columns : List GoString
  pub tables_ignore : List GoString

pub record SeedSource : Type 0 where
  pub host : GoString
  pub port : ℤ
  pub user : GoString
  pub password : GoString
  pub schemas : List GoString
  pub exclude : List GoString

-- `HTTPTimeoutS`: float64, its test against 0, and 10.
pub record Seconds : Type 1 where
  pub Time : Type 0
  pub is_zero : Time → Bool
  pub ten : Time

-- `sort_arrays` of the configuration: a path and an element key.
pub record Config (T : Seconds) : Type 0 where
  pub old : Stack
  pub new : Stack
  pub attribution : Attribution
  pub noise : Noise
  pub sort_arrays : List (GoString × GoString)
  pub http_timeout : T.Time
  pub compare_headers : List GoString
  pub report_dir : GoString
  pub corpus_dir : GoString
  pub seed_source : Option SeedSource

abbrev pub mysql_type : GoString
mysql_type = str "mysql"

abbrev pub postgres_type : GoString
postgres_type = str "postgres"

-- `s`, or `t` where `s` is empty
unfoldable pub or_default : GoString → GoString → GoString
or_default [] t = t
or_default (c ∷ s) t = c ∷ s

-- `n`, or `m` where `n` is 0
unfoldable pub or_number : ℤ → ℤ → ℤ
unfolding int_eq
or_number n m = if int_eq n (pos 0) then m else n

-- `fmt.Errorf("datastore %q: …", d.Name, d.Type)`: the parts that the error names
abbrev pub bad_type : GoString → GoString → GoString
bad_type name type = name ++ (str ": " ++ type)

default_port : GoString → ℤ
unfolding eqs
default_port type = if eqs type postgres_type then pos 5432 else pos 3306

seed_ports : Option MySql → Option MySql
unfolding or_number
seed_ports none = none
seed_ports (some m) = some (record {
  host = m.host;
  port = or_number (m.port) (pos 3306);
  user = m.user;
  password = m.password;
})

-- The fields of a datastore of a supported type, at the index `i`.
unfoldable pub defaulted : ℕ → GoString → Datastore → Datastore
unfolding default_port seed_ports or_default or_number itoa
defaulted i type d = record {
  name = or_default (d.name) (str "db" ++ itoa (suc i));
  type = type;
  host = d.host;
  port = or_number (d.port) (default_port type);
  user = d.user;
  password = d.password;
  database = d.database;
  schemas = d.schemas;
  exclude = d.exclude;
  seed_from = seed_ports (d.seed_from);
}

unfoldable pub is_supported : GoString → Bool
unfolding eqs
is_supported type = eqs type mysql_type || eqs type postgres_type

-- One turn of the loop of `normalizeDatastores`.
unfoldable pub normalize_datastore : ℕ → Datastore → Result Datastore
unfolding is_supported defaulted or_default
normalize_datastore i d =
    let type = or_default (d.type) mysql_type in
    if is_supported type then ok (defaulted i type d) else fail (bad_type (d.name) type)

-- `normalizeDatastores`
unfoldable pub normalize_from : ℕ → List Datastore → Result (List Datastore)
unfolding normalize_datastore
normalize_from i [] = ok []
normalize_from i (d ∷ ds) =
    and_then (normalize_datastore i d)
      (λ d'. and_then (normalize_from (suc i) ds) (λ ds'. ok (d' ∷ ds')))

-- The seed of the promoted datastore: schemas, exclusions and the source.
unfoldable pub seed_part : Option SeedSource → List GoString × (List GoString × Option MySql)
unfolding eqs
seed_part none = ([], ([], none))
seed_part (some s) = if eqs (s.host) [] then ([], ([], none)) else (
  s.schemas,
  (s.exclude, some (record { host = s.host; port = s.port; user = s.user; password = s.password })),
)

promoted : MySql → List GoString × (List GoString × Option MySql) → Datastore
promoted m (schemas, (exclude, source)) = record {
  name = str "default";
  type = mysql_type;
  host = m.host;
  port = m.port;
  user = m.user;
  password = m.password;
  database = [];
  schemas = schemas;
  exclude = exclude;
  seed_from = source;
}

promote : Stack → Option SeedSource → Option MySql → List Datastore → Stack
unfolding seed_part promoted
promote stack seed_source (some m) [] = record {
  name = stack.name;
  base_url = stack.base_url;
  mysql = none;
  datastores = promoted m (seed_part seed_source) ∷ [];
}
promote stack seed_source mysql datastores = stack

-- `promoteLegacy`
unfoldable pub promote_legacy : Stack → Option SeedSource → Stack
unfolding promote
promote_legacy stack seed_source = promote stack seed_source (stack.mysql) (stack.datastores)

pub promote_legacy-base_url :
    (stack : Stack) (seed : Option SeedSource)
    → (promote_legacy stack seed).base_url ≡ stack.base_url
unfolding promote_legacy promote
promote_legacy-base_url stack seed = go (stack.mysql) (stack.datastores)
  where
    go :
        (m : Option MySql) (ds : List Datastore)
        → (promote stack seed m ds).base_url ≡ stack.base_url
    go (some m) [] = refl
    go (some m) (d ∷ ds) = refl
    go none ds = refl

-- A stack with its name, and its URL without slashes at the end.
unfoldable pub named : GoString → Stack → Stack
unfolding trim_right_byte
named name stack = record {
  name = name;
  base_url = trim_right_byte b'/' (stack.base_url);
  mysql = stack.mysql;
  datastores = stack.datastores;
}

with_datastores : Stack → List Datastore → Stack
with_datastores stack datastores = record {
  name = stack.name;
  base_url = stack.base_url;
  mysql = stack.mysql;
  datastores = datastores;
}

-- `normalizeDatastores` on a stack's own list
unfoldable pub normalize_stack : Stack → Result Stack
unfolding normalize_from with_datastores
normalize_stack stack =
    and_then (normalize_from 0 (stack.datastores)) (λ ds. ok (with_datastores stack ds))

module _ {T : Seconds} where
  -- The defaults that `Load` sets after the stacks.
  unfoldable pub finished : Config T → Stack → Stack → Config T
  unfolding or_number or_default to_lower
  finished cfg old new = record {
    old = old;
    new = new;
    attribution = record {
      quiet_ms = or_number (cfg.attribution.quiet_ms) (pos 300);
      timeout_ms = or_number (cfg.attribution.timeout_ms) (pos 5000);
      check_innodb_trx = cfg.attribution.check_innodb_trx;
    };
    noise = cfg.noise;
    sort_arrays = cfg.sort_arrays;
    http_timeout = if T.is_zero (cfg.http_timeout) then T.ten else cfg.http_timeout;
    compare_headers = map to_lower (cfg.compare_headers);
    report_dir = or_default (cfg.report_dir) (str "./report");
    corpus_dir = or_default (cfg.corpus_dir) (str "./corpus");
    seed_source = cfg.seed_source;
  }

  -- `Load`, from the decoded configuration
  unfoldable pub load : Config T → Result (Config T)
  unfolding named eqs promote_legacy normalize_stack finished
  load cfg =
      let old = named (str "old") (cfg.old) in
      let new = named (str "new") (cfg.new) in
      if eqs (new.base_url) []
      then fail (str "new.base_url is required (the stack under test)")
      else and_then (normalize_stack (promote_legacy old none)) (λ old'.
        and_then (normalize_stack (promote_legacy new (cfg.seed_source)))
          (λ new'. ok (finished cfg old' new')))
