-- ===== src/Recorder.antt =====
-- The recording proxy of internal/capture/capture.go: the handler of a request, the records it writes,
-- and the status. The upstream's answer and the window of the write-set source are an `Upstream`
-- record over a state that every call may change; a request comes with the success of its write.
-- Requests are handled one at a time, as they are where a source is set.
pub mod Records
use mocking_box.Prelude.{
  ℕ, suc, Bool, true, false, ◌||◌, List, [], ◌∷◌, ◌++◌, Option, none, some, if◌then◌else◌, GoString,
  str, itoa, ℤ, Result, ok, fail,
}
use mocking_box.Diff.Value.{Numerics, Value}
use mocking_box.Diff.Writeset.{RowChange, WriteEntry, normalize_writeset}
use mocking_box.Golden.{Entry, Expected}
use mocking_box.Sniff.Pairing.{Headers, HttpRequest, kept_headers, parsed_body, request_path}

-- `exchange`: what `ModifyResponse` keeps of the upstream's response, 0 and empty where there was none,
-- and then the error that `ErrorHandler` leaves.
pub record Answer : Type 0 where
  pub err : Option GoString
  pub status : ℤ
  pub body : GoString

-- The proxy, and the write-set source of the upstream's database.
pub record Upstream (N : Numerics) : Type 1 where
  pub State : Type 0
  pub serve : HttpRequest → GoString → State → Answer × State
  pub begin_window : State → State
  pub take_window : State → Result (List (RowChange N)) × State

-- `Options`; `has_source` says whether `Source` is set.
pub record Options : Type 0 where
  pub golden : Bool
  pub has_source : Bool
  pub noise_columns : List GoString
  pub tables_ignore : List GoString

-- A record of the file: a request alone, or a golden entry.
pub data Line (N : Numerics) : Type 0 where
  request_line : GoString → GoString → GoString → Headers → Value N → Line N
  golden_line : Entry N → Line N

-- `Recorder`, with the lines of its file; `is_open` says that a file is open.
pub record Recorder (N : Numerics) : Type 0 where
  pub seq : ℕ
  pub count : ℕ
  pub last_err : GoString
  pub is_open : Bool
  pub file : List (Line N)

-- A request to the proxy: what it holds, its body, and the error of writing its record.
pub record Arrival : Type 0 where
  pub req : HttpRequest
  pub body : GoString
  pub write_error : Option GoString

-- `nextName` for the number it takes
unfoldable pub record_name : ℕ → HttpRequest → GoString
unfolding itoa
record_name seq req =
    str "cap-" ++ (itoa seq ++ (str "-" ++ (req.method ++ (str "-" ++ req.url_path))))

-- The end of `recordRequest` and `recordGolden`: the number is taken, whatever the write does.
unfoldable pub write_line : {N : Numerics} → Option GoString → Line N → Recorder N → Recorder N
write_line none line r = record {
  seq = suc (r.seq);
  count = suc (r.count);
  last_err = r.last_err;
  is_open = r.is_open;
  file = r.file ++ line ∷ [];
}
write_line (some e) line r = record {
  seq = suc (r.seq);
  count = r.count;
  last_err = e;
  is_open = r.is_open;
  file = r.file;
}

-- `setErr`
unfoldable pub set_err : {N : Numerics} → GoString → Recorder N → Recorder N
set_err e r = record {
  seq = r.seq;
  count = r.count;
  last_err = e;
  is_open = r.is_open;
  file = r.file;
}

-- The error that `ErrorHandler` leaves, if the upstream gave no response.
unfoldable pub note_err : {N : Numerics} → Option GoString → Recorder N → Recorder N
unfolding set_err
note_err none r = r
note_err (some e) r = set_err e r

module _ {N : Numerics} (unmarshal : GoString → Option (Value N)) where
  -- `requestParts`
  unfoldable pub request_parts : HttpRequest → GoString → GoString × (Headers × Value N)
  unfolding request_path kept_headers parsed_body
  request_parts req body =
      (request_path req, (kept_headers (req.header) [], parsed_body unmarshal body))

  -- `recordRequest`
  unfoldable pub record_request : Arrival → Recorder N → Recorder N
  unfolding record_name request_parts write_line
  record_request a r =
      let (path, (headers, body)) = request_parts (a.req) (a.body) in
      write_line (a.write_error)
        (request_line (record_name (suc (r.seq)) (a.req)) (a.req.method) path headers body) r

  -- `recordGolden`
  unfoldable pub record_golden :
      Arrival → Answer → Option (List (WriteEntry N)) → Recorder N → Recorder N
  unfolding record_name request_parts write_line
  record_golden a answer writeset r =
      let (path, (headers, body)) = request_parts (a.req) (a.body) in
      write_line (a.write_error)
        (golden_line (record {
          name = record_name (suc (r.seq)) (a.req);
          ts = [];
          method = a.req.method;
          path = path;
          headers = headers;
          body = body;
          expected = record { status = answer.status; body = answer.body; writeset = writeset };
        }))
        r

  module _ (U : Upstream N) (opts : Options) where
    -- What the handler makes of the window: no write-set where it fails, and the error.
    unfoldable pub after_window :
        Arrival → Answer → Recorder N → Result (List (RowChange N)) × U.State → Recorder N × U.State
    unfolding record_golden set_err normalize_writeset
    after_window a answer r (ok changes, s) = (
      record_golden a answer
          (some (normalize_writeset changes (opts.noise_columns) (opts.tables_ignore))) r,
      s,
    )
    after_window a answer r (fail e, s) = (record_golden a answer none (set_err e r), s)

    -- The golden branch of the handler.
    unfoldable pub handle_golden : Arrival → Recorder N → U.State → Recorder N × U.State
    unfolding record_golden after_window note_err
    handle_golden a r s =
        if opts.has_source
        then (let (answer, s') = U.serve (a.req) (a.body) (U.begin_window s) in
            after_window a answer (note_err (answer.err) r) (U.take_window s'))
        else (let (answer, s') = U.serve (a.req) (a.body) s in
            (record_golden a answer none (note_err (answer.err) r), s'))

    -- The handler.
    unfoldable pub handle : Arrival → Recorder N → U.State → Recorder N × U.State
    unfolding record_request handle_golden note_err
    handle a r s =
        if opts.golden
        then handle_golden a r s
        else (let (answer, s') = U.serve (a.req) (a.body) s in
            (note_err (answer.err) (record_request a r), s'))

    -- Requests, one after another.
    unfoldable pub handle_all : List Arrival → Recorder N → U.State → Recorder N × U.State
    unfolding handle
    handle_all [] r s = (r, s)
    handle_all (a ∷ later) r s = let (r', s') = handle a r s in handle_all later r' s'

-- `Stop`: the files are closed.
unfoldable pub stop : {N : Numerics} → Recorder N → Recorder N
stop r = record {
  seq = r.seq;
  count = r.count;
  last_err = r.last_err;
  is_open = false;
  file = r.file;
}

-- The fields of `Status` that change.
unfoldable pub status : {N : Numerics} → Recorder N → Bool × (ℕ × GoString)
status r = (r.is_open, (r.count, r.last_err))
