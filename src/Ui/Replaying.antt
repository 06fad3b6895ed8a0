-- ===== src/Ui/Replaying.antt =====
-- The replay that the dashboard runs, internal/ui/ui.go: `replayStart`, `startReplayState`, `runReplay`
-- and `runVerify`, and the guards of `captureStart`. Opening and reading of files, a run's start and
-- the report's path are inputs; `base` is filepath.Base.
pub mod Finish
use mocking_box.Prelude.{
  ℕ, suc, ◌+◌, Bool, true, false, not, ◌||◌, List, [], ◌∷◌, ◌++◌, Option, none, some, if◌then◌else◌,
  GoString, str, eqs, length, contains, trim_suffix, Result, ok, fail,
}
use mocking_box.Golden.{is_golden_file}
use mocking_box.Ui.Registry.{Reply, reply, json_error, is_corpus_name}

-- `replayStatus`
pub record Status : Type 0 where
  pub running : Bool
  pub corpus : GoString
  pub done : ℕ
  pub total : ℕ
  pub current : GoString
  pub last_report : GoString
  pub last_error : GoString

-- `startReplayState`: none where a replay runs already
unfoldable pub start_replay_state : GoString → ℕ → Status → Option Status
start_replay_state corpus total s =
    if s.running
    then none
    else some (record {
      running = true;
      corpus = corpus;
      done = 0;
      total = total;
      current = [];
      last_report = [];
      last_error = [];
    })

-- `OnProgress`
unfoldable pub on_progress : ℕ → ℕ → GoString → Status → Status
on_progress done total name s = record {
  running = s.running;
  corpus = s.corpus;
  done = done;
  total = total;
  current = name;
  last_report = s.last_report;
  last_error = s.last_error;
}

-- The closure `finish`.
unfoldable pub finish : (GoString → GoString) → GoString → GoString → Status → Status
unfolding eqs
finish base report_path message s = record {
  running = false;
  corpus = s.corpus;
  done = s.done;
  total = s.total;
  current = [];
  last_report = if eqs report_path [] then s.last_report else base report_path;
  last_error = message;
}

-- The calls of `OnProgress` in `Run`, after `done` of `total` requests.
unfoldable pub run_progress : ℕ → ℕ → List GoString → Status → Status
unfolding on_progress
run_progress done total [] s = on_progress total total [] s
run_progress done total (name ∷ names) s =
    run_progress (suc done) total names (on_progress done total name s)

-- What a run meets: the error of its start, and the path of the report or the error of its writing.
pub record RunInputs : Type 0 where
  pub start_error : Option GoString
  pub report : Result GoString

after_run : (GoString → GoString) → Result GoString → Status → Status
unfolding finish
after_run base (ok path) s = finish base path [] s
after_run base (fail e) s = finish base [] e s

-- `runReplay`, and `runVerify`, which does the same with a golden's entries.
unfoldable pub run_replay : (GoString → GoString) → List GoString → RunInputs → Status → Status
unfolding finish run_progress after_run
run_replay base names inputs s = go (inputs.start_error)
  where
    go : Option GoString → Status
    go (some e) = finish base [] e s
    go none = after_run base (inputs.report) (run_progress 0 (length names) names s)

pub data Mode : Type 0 where
  verify live : Mode

-- The answer of `replayStart`, and what its goroutine runs.
pub record Started : Type 0 where
  pub names : List GoString
  pub mode : Mode

begin : GoString → Mode → List GoString → Status → Reply Started × Status
unfolding start_replay_state
begin corpus mode names s = go (start_replay_state corpus (length names) s)
  where
    go : Option Status → Reply Started × Status
    go none = (json_error 409 (str "replay already running"), s)
    go (some s') = (reply (record { names = names; mode = mode }), s')

-- The checks on a golden's entries or a corpus's specs, given by their names.
checked : GoString → Mode → GoString → Result (List GoString) → Status → Reply Started × Status
unfolding begin
checked corpus mode kind (fail e) s = (json_error 400 (kind ++ (str ": " ++ e)), s)
checked corpus mode kind (ok []) s = (json_error 400 (kind ++ str " is empty"), s)
checked corpus mode kind (ok (n ∷ ns)) s = begin corpus mode (n ∷ ns) s

-- `replayStart` with the error of the configuration and the reading of the file.
unfoldable pub replay_start :
    GoString → Option GoString → Result (List GoString) → Status → Reply Started × Status
unfolding is_corpus_name is_golden_file checked
replay_start corpus config_error file s =
    if not (is_corpus_name corpus)
    then (json_error 400 (str "invalid corpus name"), s)
    else go config_error
  where
    go : Option GoString → Reply Started × Status
    go (some e) = (json_error 500 (str "config: " ++ e), s)
    go none =
        if is_golden_file corpus
        then checked corpus verify (str "golden") file s
        else checked corpus live (str "corpus") file s

-- The corpus name of `captureStart`: its extension replaced by that of the mode.
unfoldable pub capture_corpus : Bool → GoString → GoString
unfolding trim_suffix
capture_corpus golden corpus =
    let name = trim_suffix (trim_suffix corpus (str ".jsonl")) (str ".golden") in
    if golden then name ++ str ".golden.jsonl" else name ++ str ".jsonl"

-- The listening address of `captureStart`.
unfoldable pub capture_listen : GoString → GoString
unfolding contains
capture_listen listen = if contains listen (str ":") then listen else str ":" ++ listen

-- `captureStart` as far as the recorder: the address and the file that it is started on.
unfoldable pub capture_start :
    Bool → Bool → GoString → GoString → GoString → Option GoString → Reply (GoString × GoString)
unfolding capture_corpus capture_listen is_corpus_name eqs
capture_start running golden listen upstream corpus config_error =
    if eqs listen [] || (eqs upstream [] || eqs corpus [])
    then json_error 400 (str "listen, upstream, corpus are required")
    else if not (is_corpus_name (capture_corpus golden corpus))
    then json_error 400 (str "invalid corpus name")
    else go config_error
  where
    go : Option GoString → Reply (GoString × GoString)
    go (some e) = json_error 500 (str "config: " ++ e)
    go none =
        if running
        then json_error 409 (str "capture already running")
        else reply (capture_listen listen, capture_corpus golden corpus)
