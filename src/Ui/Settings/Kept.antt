-- ===== src/Ui/Settings/Kept.antt =====
-- What the settings keep of a configuration that is read, shown and saved again.
use mocking_box.Prelude.{◌≡◌, refl, List, [], ◌∷◌, map, Option, none, some, GoString, All, str, eqs}
use mocking_box.Diff.Value.{Numerics, lookup}
use mocking_box.Config.{MySql, Datastore, Stack, Seconds, Config}
use mocking_box.Config.Choice.{trx_check}
use mocking_box.Ui.Settings.{
  Yaml, IsExact, text_items, texts, seed_from_fields, datastore_json, datastore_items, stack_json,
  rule_items, config_json, text_of, number_of, bool_of, time_of, fields_of, items_of, read_texts,
  read_mysql, read_mysql_if, read_datastore, read_datastores, read_stack, read_rules,
  read_seed_source, read_config,
}

abbrev pub shown_datastore : Datastore → Datastore
shown_datastore d = record d { database = [] }

abbrev pub shown_stack : Stack → Stack
shown_stack st = record st {
  name = [];
  mysql = none;
  datastores = map shown_datastore (st.datastores);
}

-- What is kept of a configuration: all but the databases of its datastores, the stacks' names and shorthands
-- and the seed source; the transaction check is written out.
abbrev pub shown : {T : Seconds} → Config T → Config T
shown cfg = record cfg {
  old = shown_stack (cfg.old);
  new = shown_stack (cfg.new);
  attribution = record (cfg.attribution) { check_innodb_trx = some (trx_check (cfg.attribution)) };
  seed_source = none;
}

abbrev SourceIsExact : Option MySql → Type 0
SourceIsExact none = Unit
SourceIsExact (some m) = IsExact (m.port)

abbrev StackIsExact : Stack → Type 0
StackIsExact st = All (λ d. IsExact (d.port) × SourceIsExact (d.seed_from)) (st.datastores)

-- The whole numbers of a configuration
pub record ConfigIsExact {T : Seconds} (cfg : Config T) : Type 0 where
  pub old : StackIsExact (cfg.old)
  pub new : StackIsExact (cfg.new)
  pub quiet : IsExact (cfg.attribution.quiet_ms)
  pub timeout : IsExact (cfg.attribution.timeout_ms)

module _ {N : Numerics} {T : Seconds} (Y : Yaml N T) where
  read_texts-texts : (ss : List GoString) → read_texts Y (text_items ss) ≡ ss
  unfolding read_texts text_items
  read_texts-texts [] = refl
  read_texts-texts (s ∷ ss) = rw (Y.read_text-string s, read_texts-texts ss) refl

  read_rules-rules : (rules : List (GoString × GoString)) → read_rules Y (rule_items rules) ≡ rules
  unfolding read_rules rule_items text_of fields_of lookup eqs
  read_rules-rules [] = refl
  read_rules-rules ((path, by) ∷ rules) =
      rw (Y.read_text-string path, Y.read_text-string by, read_rules-rules rules) refl

  read_source-json :
      (m : Option MySql)
      → SourceIsExact m
      → read_mysql_if Y (lookup (str "seed_from") (seed_from_fields m)) ≡ m
  unfolding eqs lookup seed_from_fields read_mysql_if read_mysql text_of number_of fields_of
  read_source-json none h = refl
  read_source-json (some m) h =
      rw
        (
          Y.read_text-string (m.host),
          Y.read_number-int (m.port) h,
          Y.read_text-string (m.user),
          Y.read_text-string (m.password),
        )
        refl

  no_database : (m : Option MySql) → text_of Y (lookup (str "database") (seed_from_fields m)) ≡ []
  unfolding eqs lookup seed_from_fields text_of
  no_database none = refl
  no_database (some m) = refl

  read_datastore-json :
      (d : Datastore)
      → IsExact (d.port)
      → SourceIsExact (d.seed_from)
      → read_datastore Y (fields_of Y (some (datastore_json d))) ≡ shown_datastore d
  unfolding eqs read_datastore datastore_json fields_of lookup text_of number_of items_of texts
  read_datastore-json d h k =
      rw
        (
          Y.read_text-string (d.name),
          Y.read_text-string (d.type),
          Y.read_text-string (d.host),
          Y.read_number-int (d.port) h,
          Y.read_text-string (d.user),
          Y.read_text-string (d.password),
          read_texts-texts (d.schemas),
          read_texts-texts (d.exclude),
          read_source-json (d.seed_from) k,
          no_database (d.seed_from),
        )
        refl

  read_datastores-items :
      (ds : List Datastore)
      → All (λ d. IsExact (d.port) × SourceIsExact (d.seed_from)) ds
      → read_datastores Y (datastore_items ds) ≡ map shown_datastore ds
  unfolding read_datastores datastore_items
  read_datastores-items [] h = refl
  read_datastores-items (d ∷ ds) h =
      rw (read_datastore-json d ((h.0).0) ((h.0).1), read_datastores-items ds (h.1)) refl

  read_stack-json :
      (st : Stack)
      → StackIsExact st
      → read_stack Y (fields_of Y (some (stack_json st))) ≡ shown_stack st
  unfolding eqs read_stack stack_json fields_of lookup text_of items_of read_mysql_if
  read_stack-json st h =
      rw (Y.read_text-string (st.base_url), read_datastores-items (st.datastores) h) refl

  -- A configuration that GET /api/config shows and PUT /api/config saves comes back as it was, except that
  -- every datastore has lost its database, the stacks their shorthand and their names, and the
  -- configuration its seed source, and that the check of transactions is written out.
  pub read_config-json :
      (cfg : Config T) → ConfigIsExact cfg → read_config Y (config_json Y cfg) ≡ shown cfg
  unfolding eqs read_config config_json fields_of lookup text_of number_of bool_of time_of items_of
      texts read_seed_source
  read_config-json cfg h =
      rw
        (
          Y.read_text-string (cfg.old.base_url),
          read_datastores-items (cfg.old.datastores) (h.old),
          Y.read_text-string (cfg.new.base_url),
          read_datastores-items (cfg.new.datastores) (h.new),
          Y.read_number-int (cfg.attribution.quiet_ms) (h.quiet),
          Y.read_number-int (cfg.attribution.timeout_ms) (h.timeout),
          Y.read_bool-bool (trx_check (cfg.attribution)),
          read_texts-texts (cfg.noise.response_paths),
          read_texts-texts (cfg.noise.columns),
          read_texts-texts (cfg.noise.tables_ignore),
          read_rules-rules (cfg.sort_arrays),
          Y.read_time-json (cfg.http_timeout),
          read_texts-texts (cfg.compare_headers),
          Y.read_text-string (cfg.report_dir),
          Y.read_text-string (cfg.corpus_dir),
        )
        refl
