-- ===== src/Corpus.antt =====
-- The request corpora of internal/corpus/corpus.go: JSONL and HAR. Opening a file and splitting it
-- into lines is left out: a loader takes the lines, or the parsed HAR, and the scanner's error.
pub mod Order
pub mod Har
use mocking_box.Prelude.{
  ℕ, suc, ◌+◌, Bool, true, false, ◌||◌, List, [], ◌∷◌, ◌++◌, Option, none, some, if◌then◌else◌,
  GoString, str, eqs, to_lower, to_upper, trim_space, has_prefix, itoa, put, sort_by, Result, ok,
  fail, and_then,
}
use mocking_box.Diff.Value.{Numerics, Value, null, string, Encoded, text, failed}
use mocking_box.Diff.Json.{marshal}

abbrev pub Headers : Type 0
Headers = List (GoString × GoString)

pub record RequestSpec (N : Numerics) : Type 0 where
  pub name : GoString
  pub ts : GoString
  pub method : GoString
  pub path : GoString
  pub headers : Headers
  pub body : Value N

-- The loop that fills `lower`.
unfoldable pub lower_headers : Headers → Headers → Headers
unfolding to_lower put
lower_headers [] lower = lower
lower_headers ((k, v) ∷ hs) lower = lower_headers hs (put (to_lower k) v lower)

-- A line that `loadJSONL` passes over: blank, or a comment.
unfoldable pub is_comment : GoString → Bool
unfolding has_prefix eqs
is_comment line = eqs line [] || has_prefix line (str "#")

-- `spec.Name`, or the line's number where there is none.
unfoldable pub name_or : GoString → ℕ → GoString
unfolding itoa
name_or [] line_no = str "req-" ++ itoa line_no
name_or (c ∷ name) line_no = c ∷ name

-- `fmt.Errorf("%s line %d: %w", path, lineNo, err)`
unfoldable pub line_error : GoString → ℕ → GoString → GoString
unfolding itoa
line_error path line_no e = path ++ (str " line " ++ (itoa line_no ++ (str ": " ++ e)))

rendered : Encoded → Result (Option GoString × Bool)
rendered (text t) = ok (some t, true)
rendered (failed e) = fail e

module _ {N : Numerics} where
  -- `Describe`
  unfoldable pub describe : RequestSpec N → GoString
  describe r = r.method ++ (str " " ++ r.path)

  -- `BodyBytes`: the bytes, none for nil, and whether they are JSON.
  unfoldable pub body_bytes : RequestSpec N → Result (Option GoString × Bool)
  unfolding rendered marshal
  body_bytes r = go (r.body)
    where
      go : Value N → Result (Option GoString × Bool)
      go null = ok (none, false)
      go (string s) = ok (some s, false)
      go v = rendered (marshal v)

  unfoldable pub fill : ℕ → RequestSpec N → RequestSpec N
  unfolding name_or to_upper lower_headers
  fill line_no spec = record {
    name = name_or (spec.name) line_no;
    ts = spec.ts;
    method = to_upper (spec.method);
    path = spec.path;
    headers = lower_headers (spec.headers) [];
    body = spec.body;
  }

  module _ (unmarshal : GoString → Result (RequestSpec N)) (path : GoString) where
    add_spec : ℕ → List (RequestSpec N) → Result (RequestSpec N) → Result (List (RequestSpec N))
    unfolding fill line_error
    add_spec line_no specs (ok spec) = ok (specs ++ fill line_no spec ∷ [])
    add_spec line_no specs (fail e) = fail (line_error path line_no e)

    -- One turn of the loop of `loadJSONL`.
    unfoldable pub load_line : ℕ → GoString → List (RequestSpec N) → Result (List (RequestSpec N))
    unfolding is_comment trim_space add_spec
    load_line line_no l specs =
        if is_comment (trim_space l)
        then ok specs
        else add_spec line_no specs (unmarshal (trim_space l))

    -- The loop after `line_no` lines that gave `specs`; `scan_error` is the scanner's.
    unfoldable pub load_lines :
        ℕ → List GoString → Option GoString → List (RequestSpec N) → Result (List (RequestSpec N))
    unfolding load_line
    load_lines line_no [] none specs = ok specs
    load_lines line_no [] (some e) specs = fail e
    load_lines line_no (l ∷ ls) scan_error specs =
        and_then (load_line (suc line_no) l specs) (load_lines (suc line_no) ls scan_error)

    -- `loadJSONL`
    unfoldable pub load_jsonl : List GoString → Option GoString → Result (List (RequestSpec N))
    unfolding load_lines
    load_jsonl lines scan_error = load_lines 0 lines scan_error []

  -- The end of `Load`, whatever the format.
  unfoldable pub load : Result (List (RequestSpec N)) → Result (List (RequestSpec N))
  unfolding sort_by
  load (ok specs) = ok (sort_by (λ s. s.ts) specs)
  load (fail e) = fail e
