-- ===== src/Golden.antt =====
-- The golden artifact of internal/golden/golden.go: its records, the writer and the reader. A file is
-- the list of its lines; json.Marshal and json.Unmarshal of the records are parameters.
pub mod Reading
use mocking_box.Prelude.{
  ℕ, suc, ◌+◌, ◌*◌, ltb, length, Bool, true, false, ◌==◌, List, [], ◌∷◌, ◌++◌, Option, none, some,
  if◌then◌else◌, GoString, str, eqs, has_suffix, trim_space, sort_by, ℤ, Result, ok, fail, and_then,
}
use mocking_box.Diff.Value.{Numerics, Value}
use mocking_box.Diff.Writeset.{WriteEntry}
use mocking_box.Corpus.{RequestSpec, Headers, line_error}

-- `IsGoldenFile`
unfoldable pub is_golden_file : GoString → Bool
unfolding has_suffix
is_golden_file name = has_suffix name (str ".golden.jsonl")

pub record Meta : Type 0 where
  pub kind : GoString
  pub version : ℕ
  pub created_at : GoString
  pub upstream : GoString
  pub serialized : Bool
  pub source : GoString

-- `writeset` is none where no write-set could be attributed at capture.
pub record Expected (N : Numerics) : Type 0 where
  pub status : ℤ
  pub body : GoString
  pub writeset : Option (List (WriteEntry N))

pub record Entry (N : Numerics) : Type 0 where
  pub name : GoString
  pub ts : GoString
  pub method : GoString
  pub path : GoString
  pub headers : Headers
  pub body : Value N
  pub expected : Expected N

-- `Meta{}`
abbrev pub no_meta : Meta
no_meta = record {
  kind = [];
  version = 0;
  created_at = [];
  upstream = [];
  serialized = false;
  source = [];
}

-- The buffer of the scanner of `Read`, in which a line and its newline must fit.
abbrev pub max_line : ℕ
max_line = 4 * 1024 * 1024

-- bufio.ErrTooLong
abbrev pub too_long : GoString
too_long = str "bufio.Scanner: token too long"

-- The fields that `NewWriter` sets before it writes the first line.
unfoldable pub first_meta : GoString → Meta → Meta
unfolding eqs
first_meta now meta = record {
  kind = str "meta";
  version = if meta.version == 0 then 1 else meta.version;
  created_at = if eqs (meta.created_at) [] then now else meta.created_at;
  upstream = meta.upstream;
  serialized = meta.serialized;
  source = meta.source;
}

module _ {N : Numerics} where
  -- `Entry.RequestSpec`
  unfoldable pub request_spec : Entry N → RequestSpec N
  request_spec e = record {
    name = e.name;
    ts = [];
    method = e.method;
    path = e.path;
    headers = e.headers;
    body = e.body;
  }

-- json.Marshal of the two kinds of record, `"type"` included, and json.Unmarshal: the type of a line,
-- a line read over the meta at hand, and a line read as an entry.
pub record Format (N : Numerics) : Type 0 where
  pub meta_line : Meta → Result GoString
  pub entry_line : Entry N → Result GoString
  pub line_type : GoString → Result GoString
  pub read_meta : GoString → Meta → Result Meta
  pub read_entry : GoString → Result (Entry N)

module _ {N : Numerics} (F : Format N) where
  -- `writeLine` after json.Marshal, on a file that takes every write.
  append_line : List GoString → Result GoString → Result (List GoString)
  append_line file line = and_then line (λ l. ok (file ++ l ∷ []))

  -- `NewWriter` on a file with the given lines
  unfoldable pub new_writer : GoString → Meta → List GoString → Result (List GoString)
  unfolding first_meta append_line
  new_writer now meta [] = append_line [] (F.meta_line (first_meta now meta))
  new_writer now meta (l ∷ file) = ok (l ∷ file)

  -- `Append`
  unfoldable pub append : List GoString → Entry N → Result (List GoString)
  unfolding append_line
  append file e = append_line file (F.entry_line e)

  module _ (path : GoString) where
    -- An error of json.Unmarshal, with the file and the line.
    at_line : {A : Type 0} → ℕ → Result A → Result A
    unfolding line_error
    at_line line_no (ok a) = ok a
    at_line line_no (fail e) = fail (line_error path line_no e)

    -- The `switch` on the type of a line.
    read_typed : ℕ → GoString → GoString → Meta × List (Entry N) → Result (Meta × List (Entry N))
    unfolding eqs at_line
    read_typed line_no line type (meta, entries) =
        if eqs type (str "meta")
        then and_then (at_line line_no (F.read_meta line meta)) (λ m. ok (m, entries))
        else if eqs type (str "entry")
        then and_then (at_line line_no (F.read_entry line)) (λ e. ok (meta, entries ++ e ∷ []))
        else ok (meta, entries)

    -- One turn of the loop of `Read`.
    unfoldable pub read_line : ℕ → GoString → Meta × List (Entry N) → Result (Meta × List (Entry N))
    unfolding trim_space eqs at_line read_typed
    read_line line_no text (meta, entries) =
        let line = trim_space text in
        if eqs line []
        then ok (meta, entries)
        else and_then (at_line line_no (F.line_type line))
            (λ type. read_typed line_no line type (meta, entries))

    -- The loop of `Read` and the test of scanner.Err() after it; `scan_error` is the error of reading the
    -- file, and a line that does not fit in the buffer ends the loop with an error of its own.
    unfoldable pub read_lines :
        ℕ → List GoString → Option GoString → Meta × List (Entry N) → Result (Meta × List (Entry N))
    unfolding read_line
    read_lines line_no [] none read = ok read
    read_lines line_no [] (some e) read = fail e
    read_lines line_no (l ∷ ls) scan_error read =
        let rest = read_lines (suc line_no) ls scan_error in
        if ltb (length l) max_line
        then and_then (read_line (suc line_no) l read) rest
        else fail too_long

    sorted : Meta × List (Entry N) → Meta × List (Entry N)
    unfolding sort_by
    sorted (meta, entries) = (meta, sort_by (λ e. e.ts) entries)

    -- `Read`, of a file with the given lines, after which reading it gives `scan_error`.
    unfoldable pub read : List GoString → Option GoString → Result (Meta × List (Entry N))
    unfolding read_lines sorted
    read lines scan_error =
        and_then (read_lines 0 lines scan_error (no_meta, [])) (λ r. ok (sorted r))
