-- ===== src/Tests/Recorder.antt =====
-- A recording of two requests, of which one cannot be written.
use mocking_box.Prelude.{
  ◌≡◌, ℕ, suc, ◌+◌, List, [], ◌∷◌, ◌++◌, map, Option, none, some, GoString, str, pos, length, ok,
  true,
}
use mocking_box.Diff.Value.{Value}
use mocking_box.Sniff.Pairing.{HttpRequest}
use mocking_box.Recorder.{Upstream, Options, Recorder, Arrival, handle_all}
use mocking_box.Recorder.Records.{line_name, names_from, handle_all-names}
use mocking_box.Tests.Samples.{plain, charge}

abbrev upstream : Upstream plain
upstream = record {
  State = ℕ;
  serve = λ req body s. (record { err = none; status = pos 200; body = str "ok" }, suc s);
  begin_window = λ s. s;
  take_window = λ s. (ok (charge ∷ []), s);
}

abbrev options : Options
options = record { golden = true; has_source = true; noise_columns = []; tables_ignore = [] }

abbrev get_of : GoString → HttpRequest
get_of path = record { method = str "GET"; url_path = path; raw_query = []; header = [] }

abbrev arrivals : List Arrival
arrivals =
    record { req = get_of (str "/a"); body = []; write_error = none }
    ∷ record { req = get_of (str "/b"); body = []; write_error = some (str "disk full") }
    ∷ []

abbrev fresh : Recorder plain
fresh = record { seq = 0; count = 0; last_err = []; is_open = true; file = [] }

abbrev no_json : GoString → Option (Value plain)
no_json t = none

handle_all-names_example :
    (map line_name ((handle_all no_json upstream options arrivals fresh 0).0.file)
      ≡ map line_name (fresh.file) ++ names_from (suc (fresh.seq)) arrivals)
    × ((handle_all no_json upstream options arrivals fresh 0).0.count + length (fresh.file)
        ≡ fresh.count + length ((handle_all no_json upstream options arrivals fresh 0).0.file))
handle_all-names_example = handle_all-names no_json upstream options arrivals fresh 0
