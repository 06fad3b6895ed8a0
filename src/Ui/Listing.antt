-- ===== src/Ui/Listing.antt =====
-- The runs and recordings that internal/ui/ui.go lists: `listRuns`, `getRun`, `getConfig`, `putConfig`,
-- `listCorpora`, `getCorpus`, `captureStatus` and `captureStop`. Directories, files and their decoding are
-- inputs.
use mocking_box.Prelude.{
  ℕ, zero, suc, Bool, true, false, not, ◌&&◌, ◌||◌, leb, List, [], ◌∷◌, ◌++◌, Option, none, some,
  if◌then◌else◌, GoString, str, eqs, to_lower, has_prefix, str_lt, sort_by, drop, Result, ok, fail,
}
use mocking_box.Golden.{is_golden_file}
use mocking_box.Ui.Registry.{Reply, reply, json_error, is_corpus_name}

-- The digits at the front, so many of them: what follows, or none
after_digits : ℕ → GoString → Option GoString
after_digits zero s = some s
after_digits (suc n) [] = none
after_digits (suc n) (c ∷ s) =
    let rest = after_digits n s in if leb b'0' c && leb c b'9' then rest else none

-- `runFilePattern.MatchString(name)`: `run-`, eight digits, `-`, six digits and `.json`
unfoldable pub is_run_file : GoString → Bool
unfolding has_prefix after_digits eqs
is_run_file name = has_prefix name (str "run-") && first (after_digits 8 (drop 4 name))
  where
    second : Option GoString → Bool
    second none = false
    second (some s) = eqs s (str ".json")

    first : Option GoString → Bool
    first none = false
    first (some s) = has_prefix s (str "-") && second (after_digits 6 (drop 1 s))

-- What `os.ReadDir` gives.
pub data Directory {ℓ} (A : Type ℓ) : Type ℓ where
  listed : List A → Directory A
  missing : Directory A
  unreadable : GoString → Directory A

-- The decoded head of a report.
pub record RunMeta : Type 0 where
  pub generated_at : GoString
  pub corpus : GoString
  pub old_base_url : GoString
  pub new_base_url : GoString
  pub summary : List (GoString × ℕ)
  pub total : ℕ

-- An entry of the report directory; the head is none where it cannot be read or decoded.
pub record RunEntry : Type 0 where
  pub name : GoString
  pub is_dir : Bool
  pub head : Option RunMeta

module _ {ℓ} {A : Type ℓ} (key : A → GoString) where
  insert_descending : A → List A → List A
  unfolding str_lt
  insert_descending x [] = x ∷ []
  insert_descending x (y ∷ ys) =
      let later = insert_descending x ys in
      if str_lt (key x) (key y) then y ∷ later else x ∷ (y ∷ ys)

  -- `sort.Slice` by `>` on keys that differ
  unfoldable pub sort_descending : List A → List A
  unfolding insert_descending
  sort_descending [] = []
  sort_descending (x ∷ xs) = insert_descending x (sort_descending xs)

add_run : RunEntry → Option RunMeta → List (GoString × RunMeta) → List (GoString × RunMeta)
add_run e none rest = rest
add_run e (some m) rest = (e.name, m) ∷ rest

-- The loop of `listRuns`
unfoldable pub runs_of : List RunEntry → List (GoString × RunMeta)
unfolding is_run_file add_run
runs_of [] = []
runs_of (e ∷ es) =
    let rest = runs_of es in
    if e.is_dir || not (is_run_file (e.name)) then rest else add_run e (e.head) rest

-- `listRuns`
unfoldable pub list_runs : Directory RunEntry → Reply (List (GoString × RunMeta))
unfolding runs_of sort_descending
list_runs (unreadable e) = json_error 500 e
list_runs missing = reply []
list_runs (listed es) = reply (sort_descending (λ r. r.0) (runs_of es))

file_reply : Result GoString → Reply GoString
file_reply (ok raw) = reply raw
file_reply (fail e) = json_error 404 e

-- `getRun`, with what reading the file gives
unfoldable pub get_run : GoString → Result GoString → Reply GoString
unfolding is_run_file file_reply
get_run name file =
    if not (is_run_file name) then json_error 400 (str "invalid file name") else file_reply file

-- `putConfig`: the errors of its steps in their order, and the configuration at the end. The rename is the
-- only step that changes the file; none where it is not reached.
unfoldable pub put_config {ℓ} :
    {A : Type ℓ}
    → Option GoString
    → Option GoString
    → Option GoString
    → Result A
    → Option GoString
    → Reply A × Bool
put_config (some e) marshal_error write_error loaded rename_error = (json_error 400 e, false)
put_config none (some e) write_error loaded rename_error = (json_error 400 e, false)
put_config none none (some e) loaded rename_error = (json_error 500 e, false)
put_config none none none (fail e) rename_error =
    (json_error 400 (str "invalid config: " ++ e), false)
put_config none none none (ok cfg) (some e) = (json_error 500 e, false)
put_config none none none (ok cfg) none = (reply cfg, true)

-- An entry of the corpus directory: its extension, the number of the entries of its golden and of the
-- specs of its corpus, where they can be read, and its size and time where they are known.
pub record CorpusEntry : Type 0 where
  pub name : GoString
  pub is_dir : Bool
  pub extension : GoString
  pub golden_count : Option ℕ
  pub corpus_count : Option ℕ
  pub info : Option (ℕ × GoString)

pub record Recording : Type 0 where
  pub name : GoString
  pub count : ℕ
  pub golden : Bool
  pub info : Option (ℕ × GoString)

count_or_zero : Option ℕ → ℕ
count_or_zero none = 0
count_or_zero (some n) = n

-- `entry` of `listCorpora`
unfoldable pub recording_of : CorpusEntry → Recording
unfolding is_golden_file count_or_zero
recording_of e = record {
  name = e.name;
  count = count_or_zero (if is_golden_file (e.name) then e.golden_count else e.corpus_count);
  golden = is_golden_file (e.name);
  info = e.info;
}

-- The loop of `listCorpora`
unfoldable pub recordings_of : List CorpusEntry → List Recording
unfolding recording_of to_lower eqs
recordings_of [] = []
recordings_of (e ∷ es) =
    let rest = recordings_of es in
    let ext = to_lower (e.extension) in
    if e.is_dir || not (eqs ext (str ".jsonl") || eqs ext (str ".har"))
    then rest
    else recording_of e ∷ rest

-- `listCorpora`
unfoldable pub list_corpora : Directory CorpusEntry → Reply (List Recording)
unfolding recordings_of sort_by
list_corpora (unreadable e) = json_error 500 e
list_corpora missing = reply []
list_corpora (listed es) = reply (sort_by (λ r. r.name) (recordings_of es))

specs_reply {ℓ} : {A : Type ℓ} → Result A → Reply A
specs_reply (ok specs) = reply specs
specs_reply (fail e) = json_error 404 e

-- `getCorpus`, with what `corpus.Load` gives
unfoldable pub get_corpus {ℓ} : {A : Type ℓ} → GoString → Result A → Reply A
unfolding is_corpus_name specs_reply
get_corpus name loaded =
    if not (is_corpus_name name)
    then json_error 400 (str "invalid corpus name")
    else specs_reply loaded

-- `captureStop`: the recorder that is stopped, and the server's recorder after it
unfoldable pub capture_stop {ℓ κ} :
    {R : Type ℓ} {S : Type κ} → (R → R) → (R → S) → Option R → Reply S × Option R
capture_stop stop status none = (json_error 409 (str "no capture running"), none)
capture_stop stop status (some r) = (reply (status (stop r)), none)

-- `captureStatus`
unfoldable pub capture_status {ℓ κ} : {R : Type ℓ} {S : Type κ} → S → (R → S) → Option R → S
capture_status idle status none = idle
capture_status idle status (some r) = status r
