-- ===== src/Tests/Stacks.antt =====
-- Witnesses for the theorems on the configuration, the replay, the collector, the dashboard and the
-- write-set source.
use mocking_box.Prelude.{
  ◌≡◌, ◌≢◌, refl, ℕ, suc, ◌+◌, ◌*◌, ◌≤◌, ◌==◌, true, false, List, [], ◌∷◌, ◌++◌, map, All, Option,
  none, some, GoString, str, eqs, length, Result, ok, fail, pos, arith, get,
}
use mocking_box.Diff.Value.{Value, null, string}
use mocking_box.Diff.Response.{diff_responses}
use mocking_box.Config.{MySql, Stack, Config, Seconds, load}
use mocking_box.Config.Loaded.{IsReady, HasSource, load-IsReady}
use mocking_box.Corpus.{RequestSpec}
use mocking_box.Golden.{Entry, request_spec}
use mocking_box.Replay.Fire.{Services, Fired, fire_stack}
use mocking_box.Replay.Run.{run}
use mocking_box.Replay.Verify.{verify, verify_one, recorded, verify_options}
use mocking_box.Replay.Verdicts.{
  IsConsistent, IsJudgedBy, run-IsConsistent, verify-IsConsistent, verify_one-IsJudgedBy,
}
use mocking_box.Agent.Daemon.{
  start, stop, Command, Daemon, StartInputs, command, Reachable, at_start, after, idle, exec,
  start_capture, started, stop_capture, capture_ended, unchanged, later,
}
use mocking_box.Agent.Sessions.{capture_ended-lost}
use mocking_box.Ui.Registry as Ui
use mocking_box.Ui.Registry.Delivery.{
  beats, commands, final, delivered, queued_for, pending, delivered-pending,
}
use mocking_box.Ui.Replaying.{Status, RunInputs, start_replay_state, run_replay}
use mocking_box.Ui.Replaying.Finish.{failure, run_replay-free, run_replay-done}
use mocking_box.Binlog as Binlog
use mocking_box.Binlog.Windows.{
  Action, event, opens, closes, taken, arrived, taken-arrived, take_window-terminates,
}
use mocking_box.Tests.Samples.{plain, num, charge}

abbrev whole : Seconds
whole = record { Time = ℕ; is_zero = λ t. t == 0; ten = 10 }

abbrev database : MySql
database = record { host = str "db"; port = pos 0; user = str "u"; password = [] }

abbrev stack : GoString → Stack
stack url = record { name = []; base_url = url; mysql = some database; datastores = [] }

abbrev config : Config whole
config = record {
  old = stack (str "http://old/");
  new = stack (str "http://new");
  attribution = record { quiet_ms = pos 0; timeout_ms = pos 0; check_innodb_trx = none };
  noise = record { response_paths = []; columns = []; tables_ignore = [] };
  sort_arrays = [];
  http_timeout = 0;
  compare_headers = [];
  report_dir = [];
  corpus_dir = [];
  seed_source = none;
}

-- What `load` makes of it.
abbrev loaded_or : Result (Config whole) → Config whole
loaded_or (ok c) = c
loaded_or (fail e) = config

loaded : Config whole
loaded = loaded_or (load config)

load-IsReady_example :
    (All IsReady (loaded.old.datastores) × All IsReady (loaded.new.datastores))
    × ((HasSource (loaded.old.datastores) × HasSource (loaded.new.datastores))
        × (eqs (loaded.new.base_url) [] ≡ false))
unfolding loaded load
load-IsReady_example = load-IsReady config loaded refl

-- Stacks that count the requests and answer each with 200.
abbrev services : Services plain
services = record {
  State = ℕ;
  canonical_key = λ k. k;
  refusal = λ m u. none;
  send = λ r s. (ok (record { status = pos 200; body = str "{}"; headers = [] }), suc s);
  begin_window = λ s. s;
  take_window = λ s. (ok (charge ∷ []), s);
}

abbrev no_json : GoString → Option (Value plain)
no_json t = none

abbrev specs : List (RequestSpec plain)
specs =
    record {
      name = str "r";
      ts = [];
      method = str "GET";
      path = str "/";
      headers = [];
      body = null;
    }
    ∷ []

run-IsConsistent_example :
    (map (λ r. r.name) ((run no_json config services true true specs 0).0)
      ≡ map (λ r. r.name) specs)
    × All IsConsistent ((run no_json config services true true specs 0).0)
run-IsConsistent_example = run-IsConsistent no_json config services true true specs 0

abbrev entry : Entry plain
entry = record {
  name = str "e";
  ts = [];
  method = str "GET";
  path = str "/";
  headers = [];
  body = null;
  expected = record { status = pos 200; body = str "{}"; writeset = none };
}

verify-IsConsistent_example :
    (map (λ r. r.name) ((verify no_json config services true (entry ∷ []) 0).0)
      ≡ map (λ e. e.name) (entry ∷ []))
    × All IsConsistent ((verify no_json config services true (entry ∷ []) 0).0)
verify-IsConsistent_example = verify-IsConsistent no_json config services true (entry ∷ []) 0

-- What the stack answers, with a row that the golden does not hold.
abbrev answered : Fired plain
answered = record {
  response = record { status = pos 200; body = str "{}"; headers = [] };
  changes = charge ∷ [];
}

verify_one-IsJudgedBy_example :
    IsJudgedBy
      (diff_responses no_json
        (recorded (entry.expected))
        (answered.response)
        (verify_options config))
      ((verify_one no_json config services true entry 0).0)
unfolding fire_stack request_spec
verify_one-IsJudgedBy_example =
    verify_one-IsJudgedBy no_json config services true entry 0 1 answered refl refl

abbrev go_on : Command
go_on = record { action = start; name = str "x.jsonl"; duration_min = 30 }

abbrev inputs : StartInputs
inputs = record { base = str "x.jsonl"; stamp = []; now = 5; output_error = none }

abbrev begun : Reachable (exec go_on inputs idle)
begun = after at_start (command go_on inputs idle)

abbrev stop_it : Command
stop_it = record { action = stop; name = []; duration_min = 0 }

-- The second of two captures runs, and then the first one's goroutine fails and a stop follows.
abbrev second : Daemon
second = exec go_on inputs (exec stop_it inputs (exec go_on inputs idle))

abbrev second_begun : Reachable second
second_begun =
    after (after begun (command stop_it inputs (exec go_on inputs idle)))
      (command go_on inputs (exec stop_it inputs (exec go_on inputs idle)))

abbrev after_error : Daemon
after_error = capture_ended (some (str "closed")) second

capture_ended-lost_example :
    (after_error.running ≡ false)
    × ((after_error.timer ≡ none)
        × All (λ c. c ≢ second.session) ((exec stop_it inputs after_error).cancelled))
unfolding exec start_capture started stop_capture
capture_ended-lost_example =
    capture_ended-lost (str "closed") second_begun refl
      (later unchanged (command stop_it inputs after_error))

abbrev report : Ui.Report plain
report = record {
  state = str "idle";
  count = 0;
  current = [];
  remain_sec = 0;
  recordings = [];
  capture_ok = true;
  capture_detail = [];
  iface = [];
  last_error = [];
}

abbrev agent : Ui.AgentRecord plain
agent = record {
  name = str "n";
  mode = str "agent";
  version = [];
  out = [];
  report = report;
  remote = [];
  first_seen = 0;
  last_seen = 0;
  commands = [];
}

abbrev registry : Ui.Registry plain
registry = record { agents = (str "agent-1", agent) ∷ []; seq = 1 }

abbrev stop_command : Ui.Command plain
stop_command = (str "id", string (str "agent-1")) ∷ (str "action", string (str "stop")) ∷ []

delivered-pending_example :
    delivered (str "agent-1") (commands stop_command ∷ beats (str "agent-1") report 3 ∷ []) registry
      ++ pending
          (str "agent-1")
          (final (commands stop_command ∷ beats (str "agent-1") report 3 ∷ []) registry)
    ≡ agent.commands
      ++ queued_for (str "agent-1") (commands stop_command ∷ beats (str "agent-1") report 3 ∷ [])
unfolding get
delivered-pending_example =
    delivered-pending (str "agent-1") (commands stop_command ∷ beats (str "agent-1") report 3 ∷ [])
      registry agent refl

abbrev status : Status
status = record {
  running = true;
  corpus = str "c.jsonl";
  done = 0;
  total = 2;
  current = [];
  last_report = [];
  last_error = [];
}

abbrev run_inputs : RunInputs
run_inputs = record { start_error = none; report = ok (str "r.json") }

abbrev names : List GoString
names = str "a" ∷ str "b" ∷ []

run_replay-free_example :
    (start_replay_state (status.corpus) 0 (run_replay (λ p. p) names run_inputs status) ≢ none)
    × (((run_replay (λ p. p) names run_inputs status).current ≡ [])
        × ((run_replay (λ p. p) names run_inputs status).last_error
            ≡ failure (run_inputs.start_error) (run_inputs.report)))
run_replay-free_example = run_replay-free (λ p. p) names run_inputs status

run_replay-done_example :
    ((run_replay (λ p. p) names run_inputs status).done ≡ length names)
    × (((run_replay (λ p. p) names run_inputs status).total ≡ length names)
        × ((run_replay (λ p. p) names run_inputs status).last_report ≡ str "r.json"))
unfolding eqs
run_replay-done_example =
    run_replay-done (λ p. p) names run_inputs status (str "r.json") refl refl refl

abbrev insertion : Binlog.Event plain
insertion = Binlog.rows (record {
  kind = Binlog.write_rows;
  schema = str "shop";
  table = str "cart";
  columns = str "id" ∷ [];
  rows = (num 1 ∷ []) ∷ [];
})

abbrev source : Binlog.Capture plain
source = record { changes = []; last_event = none; err = none; last_query = [] }

abbrev actions : List (Action plain)
actions = opens ∷ event 3 insertion ∷ closes ∷ event 9 insertion ∷ []

taken-arrived_example :
    (taken actions source).0 ++ (taken actions source).1.changes
    ≡ source.changes ++ arrived (source.last_query) actions
taken-arrived_example = taken-arrived actions source

-- A database that is never quiet, polled every 50 ms with a deadline of 60 ms.
abbrev busy : ℕ → Binlog.Poll
busy i = record { now = i * 50000000; err = none; last_event = none; active_trx = true }

abbrev window : Binlog.Wait
window = record { quiet = 1; opened = 0; deadline = 60000000; check_trx = true }

busy_pace : (j : ℕ) → (busy j).now + 50 * 1000000 ≤ (busy (suc j)).now
busy_pace j = omega arith

take_window-terminates_example : Binlog.take_window 3 window busy source ≢ none
take_window-terminates_example = take_window-terminates 2 window busy source busy_pace (omega arith)
