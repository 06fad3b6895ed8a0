-- ===== src/Recorder/Records.antt =====
-- The records of the recording proxy, internal/capture/capture.go.
use mathlib.Core.List.{append_assoc, append-nil, map-append}
use mocking_box.Prelude.{
  ℕ, suc, ◌+◌, ◌≡◌, refl, ap, ◌∙◌, sym, Bool, true, false, List, [], ◌∷◌, ◌++◌, map, Option, none,
  some, GoString, length, length-append, Result, ok, fail, Option-cases, inl, inr, arith,
  if◌then◌else◌,
}
use mocking_box.Diff.Value.{Numerics, Value}
use mocking_box.Diff.Writeset.{RowChange, WriteEntry}
use mocking_box.Recorder.{
  Answer, Upstream, Options, Line, request_line, golden_line, Recorder, Arrival, record_name,
  write_line, record_request, record_golden, note_err, set_err, after_window, handle_golden, handle,
  handle_all,
}

abbrev pub line_name : {N : Numerics} → Line N → GoString
line_name (request_line name method path headers body) = name
line_name (golden_line e) = e.name

-- The names that the requests whose record is written get, the first request having the number `n`.
unfoldable pub names_from : ℕ → List Arrival → List GoString
names_from n [] = []
names_from n (a ∷ later) = go (a.write_error) (names_from (suc n) later)
  where
    go : Option GoString → List GoString → List GoString
    go none rest = record_name n (a.req) ∷ rest
    go (some e) rest = rest

module _ {N : Numerics} where
  -- A number is taken, and a record with that number is written if it can be.
  abbrev Records : Arrival → Recorder N → Recorder N → Type 0
  Records a r out =
      (out.seq ≡ suc (r.seq))
      × ((out.count + length (r.file) ≡ r.count + length (out.file))
          × (map line_name (out.file)
              ≡ map line_name (r.file) ++ names_from (suc (r.seq)) (a ∷ [])))

  write_line-Records :
      (a : Arrival) (line : Line N) (r : Recorder N)
      → line_name line ≡ record_name (suc (r.seq)) (a.req)
      → Records a r (write_line (a.write_error) line r)
  unfolding write_line names_from
  write_line-Records a line r h = elim (Option-cases (a.write_error)) [
    | inl e ↦ rw e (
      refl,
      (
        omega (arith, length-append (r.file) (line ∷ [])),
        map-append line_name (r.file) (line ∷ []) ∙ rw h,
      ),
    )
    | inr (m, e) ↦ rw e (refl, (omega arith, sym (append-nil (map line_name (r.file)))))
  ]

  -- An error text changes neither the file nor the counters.
  note_err-Records :
      (a : Arrival) (r out : Recorder N) (e : Option GoString)
      → Records a (note_err e r) out
      → Records a r out
  unfolding note_err set_err
  note_err-Records a r out none h = h
  note_err-Records a r out (some e) h = h

  Records-note_err :
      (a : Arrival) (r out : Recorder N) (e : Option GoString)
      → Records a r out
      → Records a r (note_err e out)
  unfolding note_err set_err
  Records-note_err a r out none h = h
  Records-note_err a r out (some e) h = h

  module _ (unmarshal : GoString → Option (Value N)) (U : Upstream N) where
    record_golden-Records :
        (a : Arrival) (answer : Answer) (ws : Option (List (WriteEntry N))) (r : Recorder N)
        → Records a r (record_golden unmarshal a answer ws r)
    unfolding record_golden
    record_golden-Records a answer ws r = write_line-Records a _ r refl

    after_window-Records :
        (opts : Options) (a : Arrival) (answer : Answer) (r : Recorder N)
        (w : Result (List (RowChange N)) × U.State)
        → Records a r ((after_window unmarshal U opts a answer r w).0)
    unfolding after_window note_err
    after_window-Records opts a answer r (ok changes, s) = record_golden-Records a answer _ r
    after_window-Records opts a answer r (fail e, s) =
        note_err-Records a r (record_golden unmarshal a answer none (set_err e r)) (some e)
          (record_golden-Records a answer none (set_err e r))

    if-Records :
        (a : Arrival) (r : Recorder N) (b : Bool) (x y : Recorder N × U.State)
        → Records a r (x.0)
        → Records a r (y.0)
        → Records a r ((if b then x else y).0)
    if-Records a r true x y h k = h
    if-Records a r false x y h k = k

    handle_golden-Records :
        (opts : Options) (a : Arrival) (r : Recorder N) (s : U.State)
        → Records a r ((handle_golden unmarshal U opts a r s).0)
    unfolding handle_golden
    handle_golden-Records opts a r s =
        let sourced = U.serve (a.req) (a.body) (U.begin_window s) in
        let plain = U.serve (a.req) (a.body) s in
        let noted = note_err (sourced.0.err) r in
        let out = after_window unmarshal U opts a (sourced.0) noted (U.take_window (sourced.1)) in
        let bare = record_golden unmarshal a (plain.0) none (note_err (plain.0.err) r) in
        if-Records a r (opts.has_source) out (bare, plain.1)
          (note_err-Records a r (out.0) (sourced.0.err)
            (after_window-Records opts a (sourced.0) noted (U.take_window (sourced.1))))
          (note_err-Records a r bare (plain.0.err)
            (record_golden-Records a (plain.0) none (note_err (plain.0.err) r)))

    record_request-Records :
        (a : Arrival) (r : Recorder N) → Records a r (record_request unmarshal a r)
    unfolding record_request
    record_request-Records a r = write_line-Records a _ r refl

    handle-Records :
        (opts : Options) (a : Arrival) (r : Recorder N) (s : U.State)
        → Records a r ((handle unmarshal U opts a r s).0)
    unfolding handle
    handle-Records opts a r s =
        let plain = U.serve (a.req) (a.body) s in
        let noted = note_err (plain.0.err) (record_request unmarshal a r) in
        if-Records a r (opts.golden) (handle_golden unmarshal U opts a r s) (noted, plain.1)
          (handle_golden-Records opts a r s)
          (Records-note_err a r (record_request unmarshal a r) (plain.0.err)
            (record_request-Records a r))

    names_from-cons :
        (n : ℕ) (a : Arrival) (later : List Arrival)
        → names_from n (a ∷ later) ≡ names_from n (a ∷ []) ++ names_from (suc n) later
    unfolding names_from
    names_from-cons n a later = elim (Option-cases (a.write_error)) [
      | inl e ↦ rw e
      | inr (m, e) ↦ rw e
    ]

    -- Whatever the mode, the answers of the upstream and the windows, a recording gains the records of
    -- exactly the requests whose record could be written, in their order and each under the number of
    -- its request, and the count grows by the number of records.
    pub handle_all-names :
        (opts : Options) (arrivals : List Arrival) (r : Recorder N) (s : U.State)
        → (map line_name ((handle_all unmarshal U opts arrivals r s).0.file)
            ≡ map line_name (r.file) ++ names_from (suc (r.seq)) arrivals)
          × ((handle_all unmarshal U opts arrivals r s).0.count + length (r.file)
              ≡ r.count + length ((handle_all unmarshal U opts arrivals r s).0.file))
    unfolding handle_all names_from
    handle_all-names opts [] r s = (sym (append-nil (map line_name (r.file))), refl)
    handle_all-names opts (a ∷ later) r s =
        let (r', s') = handle unmarshal U opts a r s in
        let (q, (c, m)) = handle-Records opts a r s in
        let (ms, cs) = handle_all-names opts later r' s' in
        (
          ms
              ∙ rw (m, q)
                  (append_assoc (map line_name (r.file)) (names_from (suc (r.seq)) (a ∷ []))
                      (names_from (suc (suc (r.seq))) later)
                    ∙ ap (◌++◌ (map line_name (r.file)))
                        (sym (names_from-cons (suc (r.seq)) a later))),
          omega (arith, c, cs),
        )
