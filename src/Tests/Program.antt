-- ===== src/Tests/Program.antt =====
-- Witnesses for the theorems on the passive capture and the corpora.
use mocking_box.Prelude.{
  ◌≡◌, refl, ℕ, suc, ◌+◌, ◌==◌, true, leb, List, [], ◌∷◌, ◌++◌, map, All, Option, none, some,
  GoString, str, length, keep, Result, ok, fail, if◌then◌else◌, trim_space,
}
use mocking_box.Diff.Value.{null}
use mocking_box.Sniff.Pairing.{PendingRequest, PendingResponse, Exchange, Event, request, response}
use mocking_box.Sniff.Pairing.Fifo.{
  emitted_on, requests_on, responses_on, zip_exchanges, emitted_on-zip,
}
use mocking_box.Sniff.Output.{Floats, Output, Arrival, sink_all}
use mocking_box.Sniff.Output.Counters.{is_write, exchanges, sink_all-tally, sink_all-writes}
use mocking_box.Corpus.{RequestSpec, load_jsonl, line_error, is_comment}
use mocking_box.Corpus.Har.{HarRequest, IsReplayed, load_har, load_har-IsReplayed}
use mocking_box.Corpus.Order.{entry_lines, Parsed, load_jsonl-ok, load_jsonl-fail}
use mocking_box.Tests.Samples.{plain}

-- Two connections, whose messages interleave.
abbrev get_of : GoString → PendingRequest plain
get_of path = record { ts = 1; method = str "GET"; path = path; headers = []; body = null }

abbrev answer : ℕ → PendingResponse
answer status = record { status = status; body = [] }

abbrev traffic : List (Event plain)
traffic =
    request (str "a") (get_of (str "/1"))
    ∷ response (str "b") (answer 204)
    ∷ request (str "a") (get_of (str "/2"))
    ∷ response (str "a") (answer 200)
    ∷ request (str "b") (get_of (str "/3"))
    ∷ response (str "a") (answer 404)
    ∷ []

emitted_on-zip_example :
    emitted_on (str "a") traffic []
    ≡ zip_exchanges (requests_on (str "a") traffic) (responses_on (str "a") traffic)
emitted_on-zip_example = emitted_on-zip (str "a") traffic

-- Rates in percent.
abbrev percent : Floats
percent = record { Float = ℕ; le = leb; zero_float = 0; one_float = 100 }

abbrev empty : Output plain percent
empty = record {
  seq = 0;
  count = 0;
  skipped = 0;
  sample_rate = 10;
  sample_all_writes = true;
  file = [];
}

abbrev sample : GoString → Exchange plain
sample method = record {
  ts = 1;
  method = method;
  path = str "/";
  headers = [];
  body = null;
  status = 200;
  resp_body = [];
}

abbrev arrivals : List (Arrival plain percent)
arrivals =
    record { exchange = sample (str "GET"); draw = 50; writes = true }
    ∷ record { exchange = sample (str "POST"); draw = 50; writes = true }
    ∷ []

sink_all-tally_example :
    ((sink_all empty arrivals).seq + (sink_all empty arrivals).skipped
      ≡ empty.seq + empty.skipped + length arrivals)
    × (length ((sink_all empty arrivals).file) + empty.count
        ≡ length (empty.file) + (sink_all empty arrivals).count)
sink_all-tally_example = sink_all-tally empty arrivals

sink_all-writes_example :
    keep is_write (exchanges (sink_all empty arrivals))
    ≡ keep is_write (exchanges empty) ++ keep is_write (map (λ a. a.exchange) arrivals)
sink_all-writes_example = sink_all-writes empty arrivals refl refl

-- A parser of one URL, and one of lines that do not start with `!`.
abbrev parse_url : GoString → Option (GoString × GoString)
parse_url u = some (u, [])

abbrev har : HarRequest
har = record {
  method = str "get";
  url = str "/";
  headers = (str "Cookie", str "x") ∷ (str ":path", str "/") ∷ (str "Accept", str "*") ∷ [];
  post_data = none;
}

load_har-IsReplayed_example :
    All (λ s. All IsReplayed (s.headers)) (load_har {N = plain} (λ t. none) parse_url (har ∷ []))
load_har-IsReplayed_example = load_har-IsReplayed {N = plain} (λ t. none) parse_url (har ∷ [])

abbrev spec : GoString → RequestSpec plain
spec ts = record {
  name = ts;
  ts = ts;
  method = str "GET";
  path = str "/";
  headers = [];
  body = null;
}

abbrev parse : GoString → Result (RequestSpec plain)
parse [] = fail (str "empty")
parse (c ∷ line) = if c == b'!' then fail (str "bad") else ok (spec (c ∷ line))

abbrev lines : List GoString
lines = str "b" ∷ str "# c" ∷ str " a" ∷ []

load_jsonl-ok_example :
    (out : List (RequestSpec plain)) × ((load_jsonl parse (str "f") lines none ≡ ok out)
      × Parsed parse (str "f") 0 lines out)
unfolding entry_lines is_comment trim_space
load_jsonl-ok_example =
    load_jsonl-ok parse (str "f") lines none refl
      ((spec (str "b"), refl), ((spec (str "a"), refl), tt))

load_jsonl-fail_example :
    load_jsonl parse (str "f") (lines ++ str "!" ∷ str "d" ∷ []) none
    ≡ fail (line_error (str "f") (suc (length lines)) (str "bad"))
unfolding entry_lines is_comment trim_space
load_jsonl-fail_example =
    load_jsonl-fail parse (str "f") lines (str "d" ∷ []) (str "!") (str "bad") none
      ((spec (str "b"), refl), ((spec (str "a"), refl), tt)) refl refl
