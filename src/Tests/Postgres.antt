-- ===== src/Tests/Postgres.antt =====
-- Witnesses for the theorems on the PostgreSQL source and its connection string.
use mocking_box.Prelude.{
  ◌≡◌, ◌≢◌, refl, ℕ, ◌==◌, ◌||◌, if◌then◌else◌, List, [], ◌∷◌, ◌++◌, Option, none, some, GoString,
  str, Result, ok, arith,
}
use mocking_box.Diff.Writeset.{RowChange}
use mocking_box.Diff.Value.{string}
use mocking_box.Pg.Capture.{Codec, Capture, inserted, committed, text_cell, null_cell, begin_window}
use mocking_box.Pg.Connection.{QuotedReader, cons_to, quote_value, unquoted, unquoted-quote_value}
use mocking_box.Pg.Windows.{Step, message, poll, lock, Wait, advance_all, arrived, take_window}
use mocking_box.Pg.Windows.Exact.{take_window-arrived}
use mocking_box.Pg.Windows.Ends.{take_window-ends}
use mocking_box.Tests.Samples.{plain, charge}

abbrev texts : Codec plain
texts oid t = some (string t)

-- A source that still holds a change of an earlier request.
abbrev source : Capture plain
source = record {
  relations =
      (
        7,
        record {
          namespace = str "public";
          relation_name = str "orders";
          columns = (str "id", 23) ∷ (str "note", 25) ∷ [];
        },
      )
      ∷ [];
  changes = charge ∷ [];
  last_event = some 1;
  last_commit = 100;
  window_start = 90;
  err = none;
}

abbrev timing : Wait
timing = record { quiet = 200; opened = 1000; deadline = 6000 }

abbrev before : List Step
before = message 1001 (inserted 7 (text_cell (str "1") ∷ null_cell ∷ [])) ∷ []

abbrev steps : List Step
steps =
    poll 1010
    ∷ message 1011 (inserted 7 (text_cell (str "2") ∷ []))
    ∷ message 1012 (committed 120)
    ∷ poll 1030
    ∷ lock
    ∷ []

abbrev window_of :
    Option (Result (List (RowChange plain)) × Capture plain × List Step)
    → List (RowChange plain) × Capture plain
window_of (some (ok chs, c, rest)) = (chs, c)
window_of r = ([], source)

result : List (RowChange plain) × Capture plain
result = window_of (take_window texts timing steps (advance_all texts before (begin_window source)))

take_window-arrived_example :
    (read : List Step) × ((steps ≡ read ++ [])
      × ((result.0 ≡ arrived texts (source.relations) (before ++ read)) × (result.1.changes ≡ [])))
unfolding result take_window advance_all begin_window
take_window-arrived_example =
    take_window-arrived texts timing before steps [] source (result.1) (result.0) refl

take_window-ends_example :
    take_window texts timing
      (poll 1010 ∷ poll 6001 ∷ (message 6002 (committed 130) ∷ lock ∷ steps))
      source
    ≢ none
take_window-ends_example =
    take_window-ends texts timing 6001 (poll 1010 ∷ []) (message 6002 (committed 130) ∷ []) steps
      source (omega arith)

-- A reader of quoted values, in which a backslash stands for itself before any byte but a quote and a
-- backslash.
abbrev read_value : GoString → Option (GoString × GoString)
read_value [] = none
read_value (c ∷ []) = if c == b'\'' then some ([], []) else none
read_value (c ∷ d ∷ s) =
    let next = cons_to c (read_value (d ∷ s)) in
    let escaped = cons_to d (read_value s) in
    let kept = cons_to c escaped in
    if c == b'\''
    then some ([], d ∷ s)
    else if c == b'\\'
    then if d == b'\'' || d == b'\\' then escaped else kept
    else next

read_value-quote : (rest : GoString) → read_value (b'\'' ∷ rest) ≡ some ([], rest)
read_value-quote [] = refl
read_value-quote (d ∷ s) = refl

read_value-byte :
    (c : ℕ) (rest : GoString)
    → c ≢ b'\''
    → c ≢ b'\\'
    → read_value (c ∷ rest) ≡ cons_to c (read_value rest)
read_value-byte c [] h k = ground (arith, h)
read_value-byte c (d ∷ s) h k = ground (arith, h, k)

abbrev reader : QuotedReader
reader = record {
  read = read_value;
  read_end = read_value-quote;
  read_quote = λ rest. refl;
  read_byte = read_value-byte;
}

unquoted-quote_value_example :
    unquoted reader (quote_value (str "it's") ++ str " port=5432")
    ≡ some (str "it's", str " port=5432")
unquoted-quote_value_example =
    unquoted-quote_value reader (str "it's") (str " port=5432")
      (omega arith, (omega arith, (omega arith, (omega arith, tt))))
