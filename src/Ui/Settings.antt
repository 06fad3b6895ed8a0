-- ===== src/Ui/Settings.antt =====
-- The settings of internal/ui/ui.go: `configToJSON`, and what yaml.Unmarshal reads of it by the tags of
-- internal/config/config.go. How yaml reads a scalar is a parameter; an empty list stands for nil too.
pub mod Kept
use mocking_box.Prelude.{
  ◌≡◌, Bool, true, false, List, [], ◌∷◌, Option, none, some, GoString, str, eqs, ℤ, pos, negsuc,
  ◌^◌, ◌≤◌, ◌<◌,
}
use mocking_box.Diff.Value.{
  Numerics, Value, bool, string, sized, int, array, object, Items, nil, cons, Fields, end, field,
  lookup,
}
use mocking_box.Config.{MySql, Datastore, Stack, Attribution, Noise, Seconds, Config, SeedSource}
use mocking_box.Config.Choice.{trx_check}

module _ {N : Numerics} where
  -- The elements of a list of texts
  unfoldable pub text_items : List GoString → Items N
  text_items [] = nil
  text_items (s ∷ ss) = cons (string s) (text_items ss)

  -- `orEmpty` of a list of texts
  unfoldable pub texts : List GoString → Value N
  unfolding text_items
  texts ss = array (text_items ss)

  -- `seed_from`, if there is one
  unfoldable pub seed_from_fields : Option MySql → Fields N
  seed_from_fields none = end
  seed_from_fields (some m) =
      field (str "seed_from")
        (object (
          field (str "host") (string (m.host)) (
            field (str "port") (sized int (m.port)) (
              field (str "user") (string (m.user))
                (field (str "password") (string (m.password)) end)))))
        end

  -- `item` of `stackJSON`
  unfoldable pub datastore_json : Datastore → Value N
  unfolding texts seed_from_fields
  datastore_json d = object (
      field (str "name") (string (d.name)) (
        field (str "type") (string (d.type)) (
          field (str "host") (string (d.host)) (
            field (str "port") (sized int (d.port)) (
              field (str "user") (string (d.user)) (
                field (str "password") (string (d.password)) (
                  field (str "schemas") (texts (d.schemas)) (
                    field (str "exclude_tables") (texts (d.exclude))
                      (seed_from_fields (d.seed_from))))))))))

  unfoldable pub datastore_items : List Datastore → Items N
  unfolding datastore_json
  datastore_items [] = nil
  datastore_items (d ∷ ds) = cons (datastore_json d) (datastore_items ds)

  -- `stackJSON`
  unfoldable pub stack_json : Stack → Value N
  unfolding datastore_items
  stack_json st = object (
      field (str "base_url") (string (st.base_url))
        (field (str "datastores") (array (datastore_items (st.datastores))) end))

  unfoldable pub rule_items : List (GoString × GoString) → Items N
  rule_items [] = nil
  rule_items ((path, by) ∷ rules) =
      cons (object (field (str "path") (string path) (field (str "by") (string by) end)))
        (rule_items rules)

-- A number that float64 holds exactly.
abbrev pub IsExact : ℤ → Type 0
IsExact (pos n) = n ≤ 2 ^ 53
IsExact (negsuc n) = n < 2 ^ 53

-- How yaml reads what the JSON of a value becomes: texts, whole numbers, Booleans and `http_timeout_s`;
-- an absent field is left at its zero value.
-- Texts are valid UTF-8; encoding/json makes a float64 of a number on the way.
pub record Yaml (N : Numerics) (T : Seconds) : Type 0 where
  pub time_json : T.Time → Value N
  pub read_text : Value N → GoString
  pub read_number : Value N → ℤ
  pub read_bool : Value N → Bool
  pub read_time : Value N → T.Time
  pub zero_time : T.Time
  pub read_text-string : (s : GoString) → read_text (string s) ≡ s
  pub read_number-int : (z : ℤ) → IsExact z → read_number (sized int z) ≡ z
  pub read_bool-bool : (b : Bool) → read_bool (bool b) ≡ b
  pub read_time-json : (t : T.Time) → read_time (time_json t) ≡ t

module _ {N : Numerics} {T : Seconds} (Y : Yaml N T) where
  -- `configToJSON`
  unfoldable pub config_json : Config T → Fields N
  unfolding stack_json texts rule_items trx_check
  config_json cfg = field (str "old") (stack_json (cfg.old)) (
      field (str "new") (stack_json (cfg.new)) (
        field (str "attribution")
          (object (
            field (str "quiet_ms") (sized int (cfg.attribution.quiet_ms)) (
              field (str "timeout_ms") (sized int (cfg.attribution.timeout_ms))
                (field (str "check_innodb_trx") (bool (trx_check (cfg.attribution))) end))))
          (field (str "noise")
            (object (
              field (str "response_paths") (texts (cfg.noise.response_paths)) (
                field (str "columns") (texts (cfg.noise.columns))
                  (field (str "tables_ignore") (texts (cfg.noise.tables_ignore)) end))))
            (field (str "compare")
              (object (field (str "sort_arrays") (array (rule_items (cfg.sort_arrays))) end))
              (field (str "http_timeout_s") (Y.time_json (cfg.http_timeout)) (
                field (str "compare_headers") (texts (cfg.compare_headers)) (
                  field (str "report") (object (field (str "dir") (string (cfg.report_dir)) end)) (
                    field (str "corpus") (object (field (str "dir") (string (cfg.corpus_dir)) end))
                      end))))))))

  unfoldable pub text_of : Option (Value N) → GoString
  text_of none = []
  text_of (some v) = Y.read_text v

  unfoldable pub number_of : Option (Value N) → ℤ
  number_of none = pos 0
  number_of (some v) = Y.read_number v

  unfoldable pub bool_of : Option (Value N) → Option Bool
  bool_of none = none
  bool_of (some v) = some (Y.read_bool v)

  unfoldable pub time_of : Option (Value N) → T.Time
  time_of none = Y.zero_time
  time_of (some v) = Y.read_time v

  -- The fields of a mapping, and the elements of a sequence.
  unfoldable pub fields_of : Option (Value N) → Fields N
  fields_of (some (object fs)) = fs
  fields_of v = end

  unfoldable pub items_of : Option (Value N) → Items N
  items_of (some (array vs)) = vs
  items_of v = nil

  unfoldable pub read_texts : Items N → List GoString
  read_texts nil = []
  read_texts (cons v vs) = Y.read_text v ∷ read_texts vs

  -- `MySQL`
  unfoldable pub read_mysql : Fields N → MySql
  unfolding lookup text_of number_of
  read_mysql fs = record {
    host = text_of (lookup (str "host") fs);
    port = number_of (lookup (str "port") fs);
    user = text_of (lookup (str "user") fs);
    password = text_of (lookup (str "password") fs);
  }

  unfoldable pub read_mysql_if : Option (Value N) → Option MySql
  unfolding read_mysql fields_of
  read_mysql_if none = none
  read_mysql_if (some v) = some (read_mysql (fields_of (some v)))

  -- `Datastore`
  unfoldable pub read_datastore : Fields N → Datastore
  unfolding lookup text_of number_of read_texts items_of read_mysql_if
  read_datastore fs = record {
    name = text_of (lookup (str "name") fs);
    type = text_of (lookup (str "type") fs);
    host = text_of (lookup (str "host") fs);
    port = number_of (lookup (str "port") fs);
    user = text_of (lookup (str "user") fs);
    password = text_of (lookup (str "password") fs);
    database = text_of (lookup (str "database") fs);
    schemas = read_texts (items_of (lookup (str "schemas") fs));
    exclude = read_texts (items_of (lookup (str "exclude_tables") fs));
    seed_from = read_mysql_if (lookup (str "seed_from") fs);
  }

  unfoldable pub read_datastores : Items N → List Datastore
  unfolding read_datastore fields_of
  read_datastores nil = []
  read_datastores (cons v vs) = read_datastore (fields_of (some v)) ∷ read_datastores vs

  -- `Stack`, whose name yaml does not read
  unfoldable pub read_stack : Fields N → Stack
  unfolding lookup text_of read_mysql_if read_datastores items_of
  read_stack fs = record {
    name = [];
    base_url = text_of (lookup (str "base_url") fs);
    mysql = read_mysql_if (lookup (str "mysql") fs);
    datastores = read_datastores (items_of (lookup (str "datastores") fs));
  }

  unfoldable pub read_rules : Items N → List (GoString × GoString)
  unfolding lookup text_of fields_of
  read_rules nil = []
  read_rules (cons v vs) =
      (
        text_of (lookup (str "path") (fields_of (some v))),
        text_of (lookup (str "by") (fields_of (some v))),
      )
      ∷ read_rules vs

  unfoldable pub read_seed_source : Option (Value N) → Option SeedSource
  unfolding lookup text_of number_of fields_of read_texts items_of
  read_seed_source none = none
  read_seed_source (some v) =
      let fs = fields_of (some v) in
      some (record {
        host = text_of (lookup (str "host") fs);
        port = number_of (lookup (str "port") fs);
        user = text_of (lookup (str "user") fs);
        password = text_of (lookup (str "password") fs);
        schemas = read_texts (items_of (lookup (str "schemas") fs));
        exclude = read_texts (items_of (lookup (str "exclude_tables") fs));
      })

  -- `Config`
  unfoldable pub read_config : Fields N → Config T
  unfolding lookup read_stack fields_of number_of bool_of time_of text_of read_texts items_of
      read_rules read_seed_source
  read_config fs =
      let at : GoString → Fields N = λ k. fields_of (lookup k fs) in
      let list : GoString → GoString → List GoString =
        λ k j. read_texts (items_of (lookup j (at k))) in
      record {
        old = read_stack (at (str "old"));
        new = read_stack (at (str "new"));
        attribution = record {
          quiet_ms = number_of (lookup (str "quiet_ms") (at (str "attribution")));
          timeout_ms = number_of (lookup (str "timeout_ms") (at (str "attribution")));
          check_innodb_trx = bool_of (lookup (str "check_innodb_trx") (at (str "attribution")));
        };
        noise = record {
          response_paths = list (str "noise") (str "response_paths");
          columns = list (str "noise") (str "columns");
          tables_ignore = list (str "noise") (str "tables_ignore");
        };
        sort_arrays = read_rules (items_of (lookup (str "sort_arrays") (at (str "compare"))));
        http_timeout = time_of (lookup (str "http_timeout_s") fs);
        compare_headers = read_texts (items_of (lookup (str "compare_headers") fs));
        report_dir = text_of (lookup (str "dir") (at (str "report")));
        corpus_dir = text_of (lookup (str "dir") (at (str "corpus")));
        seed_source = read_seed_source (lookup (str "seed_source") fs);
      }
