-- ===== src/Seed/Batches.antt =====
-- The batches of `copyTable` in internal/seed/seed.go: the statements that its loop executes, against a
-- list of batches that is inserted batch by batch.
use mathlib.Core.List.{append_assoc, append-nil}
use mocking_box.Prelude.{
  inl, inr, ◌≡◌, refl, sym, ◌∙◌, ℕ, ◌<◌, true, false, List, [], ◌∷◌, ◌++◌, none, leb, leb→le,
  length, length-append, All, Bool-cases, GoString, ok, then_run, then_run-return, then_run-ext,
  arith,
}
use mocking_box.Seed.Tables.{Row, Target, Run, batch_rows, insert, flush, finish, copy_rows}

-- The rows of a list of batches.
abbrev pub rows_of : List (List Row) → List Row
rows_of [] = []
rows_of (b ∷ bs) = b ++ rows_of bs

abbrev pub IsFull : List Row → Type 0
IsFull b = length b ≡ batch_rows

-- A last batch, if it has rows.
abbrev pub last_batch : List Row → List (List Row)
last_batch [] = []
last_batch (r ∷ rows) = (r ∷ rows) ∷ []

module _ (T : Target) (schema table : GoString) (cols : List GoString) where
  -- One statement for each batch, until one fails; the count of the rows so far.
  abbrev pub insert_all : List (List Row) → ℕ → Run T ℕ
  insert_all [] total s = (ok total, s)
  insert_all (b ∷ bs) total s = then_run (insert T schema table cols b total s) (insert_all bs)

  -- The loop over the rows, with those that wait, inserts these batches and then the rest.
  record Batched (batch rows : List Row) : Type 0 where
    batches : List (List Row)
    rest : List Row
    same : rows_of batches ++ rest ≡ batch ++ rows
    full : All IsFull batches
    short : length rest < batch_rows
    runs :
        (total : ℕ) (s : T.State)
        → copy_rows T schema table cols rows none batch total s
          ≡ insert_all (batches ++ last_batch rest) total s

  flush-last :
      (rest : List Row) (total : ℕ) (s : T.State)
      → flush T schema table cols rest total s ≡ insert_all (last_batch rest) total s
  unfolding flush
  flush-last [] total s = refl
  flush-last (r ∷ rest) total s =
      sym (then_run-return (insert T schema table cols (r ∷ rest) total s))

  -- A batch that is full is inserted, and the loop goes on with an empty one.
  flush-full :
      (batch : List Row) (total : ℕ) (s : T.State)
      → IsFull batch
      → flush T schema table cols batch total s ≡ insert T schema table cols batch total s
  unfolding flush
  flush-full [] total s full = absurd (omega (arith, full))
  flush-full (r ∷ batch) total s full = refl

  module _ (batch rows : List Row) (r : Row) where
    copy-full :
        (total : ℕ) (s : T.State)
        → leb batch_rows (length (batch ++ r ∷ [])) ≡ true
        → copy_rows T schema table cols (r ∷ rows) none batch total s
          ≡ then_run
              (flush T schema table cols (batch ++ r ∷ []) total s)
              (copy_rows T schema table cols rows none [])
    unfolding copy_rows
    copy-full total s h = rw h refl

    copy-short :
        (total : ℕ) (s : T.State)
        → leb batch_rows (length (batch ++ r ∷ [])) ≡ false
        → copy_rows T schema table cols (r ∷ rows) none batch total s
          ≡ copy_rows T schema table cols rows none (batch ++ r ∷ []) total s
    unfolding copy_rows
    copy-short total s h = rw h refl

    grown-same : (b : List Row) → b ≡ (batch ++ r ∷ []) ++ rows → b ≡ batch ++ r ∷ rows
    grown-same b e = e ∙ append_assoc batch (r ∷ []) rows

    grown-rows :
        (b rest : List Row)
        → b ++ rest ≡ rows
        → ((batch ++ r ∷ []) ++ b) ++ rest ≡ batch ++ r ∷ rows
    grown-rows b rest e =
        append_assoc (batch ++ r ∷ []) b rest ∙ rw e (append_assoc batch (r ∷ []) rows)

    grown-full :
        leb batch_rows (length (batch ++ r ∷ [])) ≡ true
        → IsFull (batch ++ r ∷ [])
        → Batched [] rows
        → Batched batch (r ∷ rows)
    grown-full h full after = record {
      batches = (batch ++ r ∷ []) ∷ after.batches;
      rest = after.rest;
      same = grown-rows (rows_of (after.batches)) (after.rest) (after.same);
      full = (full, after.full);
      short = after.short;
      runs = λ total s.
          copy-full total s h
          ∙ (rw (flush-full (batch ++ r ∷ []) total s full) (
              then_run-ext (insert T schema table cols (batch ++ r ∷ []) total s) _ _
                (after.runs)));
    }

    grown-short :
        leb batch_rows (length (batch ++ r ∷ [])) ≡ false
        → Batched (batch ++ r ∷ []) rows
        → Batched batch (r ∷ rows)
    grown-short h after = record {
      batches = after.batches;
      rest = after.rest;
      same = grown-same _ (after.same);
      full = after.full;
      short = after.short;
      runs = λ total s. copy-short total s h ∙ after.runs total s;
    }

  batched : (rows batch : List Row) → length batch < batch_rows → Batched batch rows
  unfolding copy_rows finish
  batched [] batch h = record {
    batches = [];
    rest = batch;
    same = sym (append-nil batch);
    full = tt;
    short = h;
    runs = flush-last batch;
  }
  batched (r ∷ rows) batch h = elim (Bool-cases (leb batch_rows (length (batch ++ r ∷ [])))) [
    | inl e ↦
        grown-full batch rows r e (omega (arith, length-append batch (r ∷ []), leb→le _ _ e))
          (batched rows [] (omega arith))
    | inr e ↦
        grown-short batch rows r e
          (batched rows (batch ++ r ∷ []) (ground (arith, length-append batch (r ∷ []), e)))
  ]

  -- If the source gives all its rows, copyTable executes one INSERT for every 500 of them in their order
  -- and one for those left over, if any, until a statement fails, and counts the rows it inserted.
  pub copy_rows-batches :
      (rows : List Row) (s : T.State)
      → (batches : List (List Row)) × (rest : List Row) × ((rows_of batches ++ rest ≡ rows)
          × (All IsFull batches
              × ((length rest < batch_rows)
                  × (copy_rows T schema table cols rows none [] 0 s
                      ≡ insert_all (batches ++ last_batch rest) 0 s))))
  copy_rows-batches rows s =
      let b = batched rows [] (omega arith) in
      (b.batches, b.rest, (b.same, (b.full, (b.short, b.runs 0 s))))
