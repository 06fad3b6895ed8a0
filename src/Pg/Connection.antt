-- ===== src/Pg/Connection.antt =====
-- The connection string, the discovery and the health check of internal/pg/pg.go. What reads a quoted value
-- of a connection string is the parser of pgx/pgconn: it is a parameter.
use mathlib.Core.List.{append_assoc}
use mocking_box.Prelude.{
  ◌≡◌, ◌≢◌, refl, ◌∙◌, ℕ, Bool, true, false, List, [], ◌∷◌, ◌++◌, Option, none, some, if◌then◌else◌,
  any, All, ◌==◌, ==_iff, GoString, str, eqs, join, int_text, replace_byte, Result, ok, fail, put,
  get, Bool-cases, inl, inr, ap, arith,
}
use mocking_box.Config.{Datastore}

-- `systemSchemas`
unfoldable pub is_system : GoString → Bool
unfolding eqs
is_system s = any (eqs s) (str "pg_catalog" ∷ str "information_schema" ∷ str "pg_toast" ∷ [])

-- `databaseName`
unfoldable pub database_name : Datastore → GoString
unfolding eqs
database_name d = if eqs (d.database) [] then d.user else d.database

-- `q` of `connString`
unfoldable pub quote_value : GoString → GoString
unfolding replace_byte
quote_value v = b'\'' ∷ (replace_byte b'\'' (b'\\' ∷ b'\'' ∷ []) v ++ b'\'' ∷ [])

-- `connString`
unfoldable pub conn_string : Datastore → GoString → GoString
unfolding quote_value join int_text
conn_string d dbname = join (str " ") (
    (str "host=" ++ quote_value (d.host))
    ∷ (str "port=" ++ int_text (d.port))
    ∷ (str "user=" ++ quote_value (d.user))
    ∷ (str "password=" ++ quote_value (d.password))
    ∷ (str "dbname=" ++ quote_value dbname)
    ∷ str "sslmode=prefer"
    ∷ [])

-- `TableInfo`
pub record TableInfo : Type 0 where
  pub name : GoString
  pub rows : ℕ
  pub size_mb : ℕ

-- `SchemaInfo`; the rows of the query are tables with their schema.
abbrev pub SchemaInfo : Type 0
SchemaInfo = GoString × List TableInfo

appended : TableInfo → Option (List TableInfo) → List TableInfo
appended t none = t ∷ []
appended t (some ts) = ts ++ t ∷ []

-- The loop of `Discover` over the rows; `bySchema` with `order` is one list of schemas in that order.
unfoldable pub discovered : List (GoString × TableInfo) → List SchemaInfo → List SchemaInfo
unfolding is_system put get appended
discovered [] found = found
discovered ((schema, t) ∷ rows) found =
    if is_system schema
    then discovered rows found
    else discovered rows (put schema (appended t (get schema found)) found)

-- What `Health` says: its three failures, or the connection.
pub data Health : Type 0 where
  connected : Health
  unreachable no_level wrong_level : GoString → Health

-- `Health`, from the error of the connection and the answer to `SHOW wal_level`
unfoldable pub health : Option GoString → Result GoString → Health
unfolding eqs
health (some e) level = unreachable e
health none (fail e) = no_level e
health none (ok level) = if eqs level (str "logical") then connected else wrong_level level

abbrev pub cons_to : ℕ → Option (GoString × GoString) → Option (GoString × GoString)
cons_to c none = none
cons_to c (some (v, rest)) = some (c ∷ v, rest)

-- The reader that pgx/pgconn has for keyword/value strings, after an opening quote: the value ends at a
-- quote, a quote after a backslash is one of the value's, and all bytes but these two stand for themselves.
-- What it makes of a backslash before any other byte is left open.
pub record QuotedReader : Type 0 where
  pub read : GoString → Option (GoString × GoString)
  pub read_end : (rest : GoString) → read (b'\'' ∷ rest) ≡ some ([], rest)
  pub read_quote : (rest : GoString) → read (b'\\' ∷ b'\'' ∷ rest) ≡ cons_to b'\'' (read rest)
  pub read_byte :
      (c : ℕ) (rest : GoString) → c ≢ b'\'' → c ≢ b'\\' → read (c ∷ rest) ≡ cons_to c (read rest)

abbrev pub NoBackslash : GoString → Type 0
NoBackslash v = All (λ c. c ≢ b'\\') v

escaped : GoString → GoString
unfolding replace_byte
escaped v = replace_byte b'\'' (b'\\' ∷ b'\'' ∷ []) v

escaped-quote :
    (c : ℕ) (v : GoString) → c == b'\'' ≡ true → escaped (c ∷ v) ≡ b'\\' ∷ b'\'' ∷ escaped v
unfolding escaped replace_byte
escaped-quote c v e = rw e refl

escaped-other : (c : ℕ) (v : GoString) → c == b'\'' ≡ false → escaped (c ∷ v) ≡ c ∷ escaped v
unfolding escaped replace_byte
escaped-other c v e = rw e refl

module _ (R : QuotedReader) where
  read-escaped :
      (v rest : GoString) → NoBackslash v → R.read (escaped v ++ b'\'' ∷ rest) ≡ some (v, rest)
  unfolding escaped replace_byte
  read-escaped [] rest h = R.read_end rest
  read-escaped (c ∷ v) rest h = elim (Bool-cases (c == b'\'')) [
    | inl e ↦ rw (escaped-quote c v e) (
        R.read_quote (escaped v ++ b'\'' ∷ rest)
        ∙ rw ((==_iff c b'\'').0 e) (ap (cons_to b'\'') (read-escaped v rest (h.1))))
    | inr e ↦ rw (escaped-other c v e) (
        R.read_byte c (escaped v ++ b'\'' ∷ rest) (λ q. ground (arith, e)) (h.0)
        ∙ ap (cons_to c) (read-escaped v rest (h.1)))
  ]

  -- What the reader makes of a text that starts with a quote.
  abbrev pub unquoted : GoString → Option (GoString × GoString)
  unquoted [] = none
  unquoted (c ∷ s) = if c == b'\'' then R.read s else none

  -- A value that connString quotes is read by pgconn's reader of keyword/value strings as it is, up to the
  -- end of its quotes, if it holds no backslash.
  pub unquoted-quote_value :
      (v rest : GoString) → NoBackslash v → unquoted (quote_value v ++ rest) ≡ some (v, rest)
  unfolding quote_value escaped
  unquoted-quote_value v rest h =
      rw (append_assoc (escaped v) (b'\'' ∷ []) rest) (read-escaped v rest h)
