-- ===== src/Binlog.antt =====
-- The MySQL write-set source of internal/binlog/capture.go: the events of the binary log, the changes
-- that they leave, and the window. The columns that `columnNames` finds, the clock, the connection's
-- answers on transactions and the stream are inputs; times are in nanoseconds.
pub mod Logged
pub mod Windows
use mocking_box.Prelude.{
  ℕ, zero, suc, ◌+◌, ◌-◌, ◌*◌, Bool, true, false, not, ◌&&◌, ◌||◌, List, [], ◌∷◌, ◌++◌, Option,
  none, some, Result, ok, fail, ltb, leb, if◌then◌else◌, any, get_elem?, GoString, str, eqs, itoa,
}
use mocking_box.Diff.Value.{Numerics, Value, Fields, end, field}
use mocking_box.Diff.Writeset.{RowChange, insert_op, update_op, delete_op}

-- `opOf`: the kinds of row event, of every version.
pub data RowsKind : Type 0 where
  write_rows update_rows delete_rows unknown : RowsKind

-- A `RowsEvent`: its kind, its table, the names of the columns, and the rows.
pub record RowsEvent (N : Numerics) : Type 0 where
  pub kind : RowsKind
  pub schema : GoString
  pub table : GoString
  pub columns : List GoString
  pub rows : List (List (Value N))

pub data Event (N : Numerics) : Type 0 where
  rows_query : GoString → Event N
  rows : RowsEvent N → Event N
  other : Event N

-- `systemSchemas`
abbrev pub system_schemas : List GoString
system_schemas = str "mysql" ∷ str "information_schema" ∷ str "performance_schema" ∷ str "sys" ∷ []

unfoldable pub is_system : GoString → Bool
unfolding eqs
is_system schema = any (eqs schema) system_schemas

named : ℕ → Option GoString → GoString
unfolding itoa
named i (some (c ∷ name)) = c ∷ name
named i o = str "col_" ++ itoa i

-- The name of the column `i`.
unfoldable pub column_name : List GoString → ℕ → GoString
unfolding named
column_name cols i = named i (get_elem? cols i)

module _ {N : Numerics} where
  -- `m[name] = v`
  unfoldable pub put_field : GoString → Value N → Fields N → Fields N
  unfolding eqs
  put_field name v end = field name v end
  put_field name v (field k w fs) =
      let rest = put_field name v fs in if eqs k name then field k v fs else field k w rest

  -- The closure `rowMap`, from the column `i` on.
  unfoldable pub row_map : List GoString → ℕ → List (Value N) → Fields N → Fields N
  unfolding column_name put_field
  row_map cols i [] m = m
  row_map cols i (v ∷ row) m = row_map cols (suc i) row (put_field (column_name cols i) v m)

  change : GoString → GoString → Option (Fields N) → Option (Fields N) → GoString → RowChange N
  change table op before after query = record {
    table = table;
    op = op;
    before = before;
    after = after;
    query = query;
  }

  -- The pairs of an update; a row without its pair is dropped.
  unfoldable pub update_rows_of :
      GoString → List GoString → GoString → List (List (Value N)) → List (RowChange N)
  unfolding row_map change
  update_rows_of table cols query (old ∷ new ∷ rest) =
      change table update_op (some (row_map cols 0 old end)) (some (row_map cols 0 new end)) query
      ∷ update_rows_of table cols query rest
  update_rows_of table cols query rest = []

  unfoldable pub insert_rows_of :
      GoString → List GoString → GoString → List (List (Value N)) → List (RowChange N)
  unfolding row_map change
  insert_rows_of table cols query [] = []
  insert_rows_of table cols query (row ∷ rest) =
      change table insert_op none (some (row_map cols 0 row end)) query
      ∷ insert_rows_of table cols query rest

  unfoldable pub delete_rows_of :
      GoString → List GoString → GoString → List (List (Value N)) → List (RowChange N)
  unfolding row_map change
  delete_rows_of table cols query [] = []
  delete_rows_of table cols query (row ∷ rest) =
      change table delete_op (some (row_map cols 0 row end)) none query
      ∷ delete_rows_of table cols query rest

  -- `normalize`
  unfoldable pub normalize : RowsEvent N → GoString → List (RowChange N)
  unfolding update_rows_of insert_rows_of delete_rows_of
  normalize e query = go (e.kind)
    where
      table : GoString
      table = e.schema ++ (str "." ++ e.table)

      go : RowsKind → List (RowChange N)
      go update_rows = update_rows_of table (e.columns) query (e.rows)
      go write_rows = insert_rows_of table (e.columns) query (e.rows)
      go delete_rows = delete_rows_of table (e.columns) query (e.rows)
      go unknown = []

-- `Capture`, with the pump's `lastQuery`.
pub record Capture (N : Numerics) : Type 0 where
  pub changes : List (RowChange N)
  pub last_event : Option ℕ
  pub err : Option GoString
  pub last_query : GoString

module _ {N : Numerics} where
  -- The changes of an event: none for a system schema.
  unfoldable pub changes_of : GoString → Event N → List (RowChange N)
  unfolding is_system normalize
  changes_of query (rows e) = if is_system (e.schema) then [] else normalize e query
  changes_of query e = []

  append : ℕ → List (RowChange N) → Capture N → Capture N
  append now [] c = c
  append now (x ∷ xs) c = record {
    changes = c.changes ++ x ∷ xs;
    last_event = some now;
    err = c.err;
    last_query = c.last_query;
  }

  -- One turn of the loop of `pump`.
  unfoldable pub pump : ℕ → Event N → Capture N → Capture N
  unfolding changes_of append
  pump now (rows_query q) c = record {
    changes = c.changes;
    last_event = c.last_event;
    err = c.err;
    last_query = q;
  }
  pump now (rows e) c = append now (changes_of (c.last_query) (rows e)) c
  pump now other c = c

  -- The end of the stream by an error.
  unfoldable pub stream_died : GoString → Capture N → Capture N
  stream_died e c = record {
    changes = c.changes;
    last_event = c.last_event;
    err = some e;
    last_query = c.last_query;
  }

  -- `BeginWindow`
  unfoldable pub begin_window : Capture N → Capture N
  begin_window c = record {
    changes = c.changes;
    last_event = none;
    err = c.err;
    last_query = c.last_query;
  }

  -- The end of `TakeWindow`, once it has waited.
  unfoldable pub close_window : Capture N → List (RowChange N) × Capture N
  close_window c = (
    c.changes,
    record { changes = []; last_event = c.last_event; err = c.err; last_query = c.last_query },
  )

-- What a turn of the loop of `TakeWindow` reads: the time, the pump's error and last event, and
-- whether a transaction is active.
pub record Poll : Type 0 where
  pub now : ℕ
  pub err : Option GoString
  pub last_event : Option ℕ
  pub active_trx : Bool

pub data Waited : Type 0 where
  quiesced timed_out : Waited
  failed : GoString → Waited

pub record Wait : Type 0 where
  pub quiet : ℕ
  pub opened : ℕ
  pub deadline : ℕ
  pub check_trx : Bool

since : ℕ → Option ℕ → ℕ → ℕ
since now none opened = now - opened
since now (some last) opened = now - last

-- One turn of the loop; none where it sleeps.
unfoldable pub turn : Wait → Poll → Option Waited
unfolding since
turn w p = go (p.err)
  where
    go : Option GoString → Option Waited
    go (some e) = some (failed e)
    go none =
        if leb (w.quiet) (since (p.now) (p.last_event) (w.opened))
          && (not (w.check_trx) || not (p.active_trx))
        then some quiesced
        else if ltb (w.deadline) (p.now)
        then some timed_out
        else none

or_wait : Option Waited → Option Waited → Option Waited
or_wait (some r) rest = some r
or_wait none rest = rest

-- The loop of `TakeWindow` from the turn `i` on, at most `fuel` turns: none where they are used up.
unfoldable pub wait : ℕ → Wait → (ℕ → Poll) → ℕ → Option Waited
unfolding turn or_wait
wait zero w polls i = none
wait (suc fuel) w polls i = or_wait (turn w (polls i)) (wait fuel w polls (suc i))

-- The result of `TakeWindow`; the source is as it is when the loop ends.
window_result :
    {N : Numerics} → Option Waited → Capture N → Option (Result (List (RowChange N)) × Capture N)
unfolding close_window
window_result none c = none
window_result (some (failed e)) c = some (fail e, c)
window_result (some quiesced) c = let (changes, c') = close_window c in some (ok changes, c')
window_result (some timed_out) c = let (changes, c') = close_window c in some (ok changes, c')

-- `TakeWindow`
unfoldable pub take_window :
    {N : Numerics}
    → ℕ
    → Wait
    → (ℕ → Poll)
    → Capture N
    → Option (Result (List (RowChange N)) × Capture N)
unfolding wait window_result
take_window fuel w polls c = window_result (wait fuel w polls 0) c
