-- ===== src/Binlog/Logged.antt =====
-- What a row event of the binary log tells, against the changes that internal/binlog/capture.go makes of it.
use mocking_box.Prelude.{
  ◌≡◌, refl, List, [], ◌∷◌, ◌++◌, Option, none, some, map, ◌⊎◌, ◌||◌, if◌then◌else◌, str, eqs,
  GoString, arith, inl, inr,
}
use mocking_box.Diff.Value.{Numerics, Value, Fields, end}
use mocking_box.Diff.Writeset.{RowChange}
use mocking_box.Binlog.{
  rows, RowsEvent, RowsKind, write_rows, update_rows, delete_rows, unknown, row_map, insert_rows_of,
  delete_rows_of, update_rows_of, normalize, is_system, changes_of,
}

Kind-cases :
    (k : RowsKind) → (k ≡ write_rows) ⊎ ((k ≡ delete_rows) ⊎ ((k ≡ update_rows) ⊎ (k ≡ unknown)))
Kind-cases write_rows = inl refl
Kind-cases delete_rows = inr (inl refl)
Kind-cases update_rows = inr (inr (inl refl))
Kind-cases unknown = inr (inr (inr refl))

module _ {N : Numerics} where
  -- The columns of a row, by their names.
  columns_of : RowsEvent N → List (Value N) → Fields N
  unfolding row_map
  columns_of e row = row_map (e.columns) 0 row end

  change_of :
      RowsEvent N → GoString → GoString → Option (Fields N) → Option (Fields N) → RowChange N
  change_of e query op before after = record {
    table = e.schema ++ (str "." ++ e.table);
    op = op;
    before = before;
    after = after;
    query = query;
  }

  -- An update of a row, for each two rows after one another.
  updates : RowsEvent N → GoString → List (List (Value N)) → List (RowChange N)
  unfolding columns_of change_of
  updates e query [] = []
  updates e query (old ∷ []) = []
  updates e query (old ∷ new ∷ rs) =
      change_of e query (str "UPDATE") (some (columns_of e old)) (some (columns_of e new))
      ∷ updates e query rs

  -- What an event of rows tells, by its kind: the rows that are there after it, the rows that were there
  -- before it, or both for a pair of rows.
  told : RowsKind → RowsEvent N → GoString → List (RowChange N)
  unfolding columns_of change_of updates
  told write_rows e query =
      map (λ row. change_of e query (str "INSERT") none (some (columns_of e row))) (e.rows)
  told delete_rows e query =
      map (λ row. change_of e query (str "DELETE") (some (columns_of e row)) none) (e.rows)
  told update_rows e query = updates e query (e.rows)
  told unknown e query = []

  -- What an event of rows tells, of a schema that is none of the server's own.
  unfoldable pub logged : GoString → RowsEvent N → List (RowChange N)
  unfolding told eqs
  logged query e =
      if eqs (e.schema) (str "mysql")
        || (eqs (e.schema) (str "information_schema")
            || (eqs (e.schema) (str "performance_schema") || eqs (e.schema) (str "sys")))
      then []
      else told (e.kind) e query

  insert_rows_of-map :
      (e : RowsEvent N) (query : GoString) (rs : List (List (Value N)))
      → insert_rows_of (e.schema ++ (str "." ++ e.table)) (e.columns) query rs
        ≡ map (λ row. change_of e query (str "INSERT") none (some (columns_of e row))) rs
  unfolding insert_rows_of change_of columns_of
  insert_rows_of-map e query [] = refl
  insert_rows_of-map e query (row ∷ rs) = rw (insert_rows_of-map e query rs) refl

  delete_rows_of-map :
      (e : RowsEvent N) (query : GoString) (rs : List (List (Value N)))
      → delete_rows_of (e.schema ++ (str "." ++ e.table)) (e.columns) query rs
        ≡ map (λ row. change_of e query (str "DELETE") (some (columns_of e row)) none) rs
  unfolding delete_rows_of change_of columns_of
  delete_rows_of-map e query [] = refl
  delete_rows_of-map e query (row ∷ rs) = rw (delete_rows_of-map e query rs) refl

  update_rows_of-updates :
      (e : RowsEvent N) (query : GoString) (rs : List (List (Value N)))
      → update_rows_of (e.schema ++ (str "." ++ e.table)) (e.columns) query rs ≡ updates e query rs
  unfolding update_rows_of updates change_of columns_of
  update_rows_of-updates e query [] = refl
  update_rows_of-updates e query (old ∷ []) = refl
  update_rows_of-updates e query (old ∷ new ∷ rs) = rw (update_rows_of-updates e query rs) refl

  normalize-told : (e : RowsEvent N) (query : GoString) → normalize e query ≡ told (e.kind) e query
  unfolding normalize told
  normalize-told e query = elim (Kind-cases (e.kind)) [
    | inl k ↦ simp (k, insert_rows_of-map e query (e.rows))
    | inr (inl k) ↦ simp (k, delete_rows_of-map e query (e.rows))
    | inr (inr (inl k)) ↦ simp (k, update_rows_of-updates e query (e.rows))
    | inr (inr (inr k)) ↦ simp k
  ]

  pub changes_of-logged :
      (query : GoString) (e : RowsEvent N) → changes_of query (rows e) ≡ logged query e
  unfolding changes_of logged is_system
  changes_of-logged query e = ground (arith, normalize-told e query)
