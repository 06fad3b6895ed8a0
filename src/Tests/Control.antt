-- ===== src/Tests/Control.antt =====
-- Witnesses for the theorems on the command line, the MCP server and the settings.
use mocking_box.Prelude.{
  ◌≡◌, refl, inr, ℕ, suc, ◌+◌, ◌≤◌, Bool, true, false, if◌then◌else◌, arith, List, [], ◌∷◌, Option,
  none, some, GoString, str, ℤ, pos, eqs, ok, fail,
}
use mocking_box.Diff.Value.{Value, Fields, null, bool, string, sized, int, end, field}
use mocking_box.Config.{Datastore, Stack, Config, Seconds}
use mocking_box.Golden.{Entry, Meta, request_spec}
use mocking_box.Replay.Fire.{Services, Fired, fire_stack}
use mocking_box.Cli.Verify.{VerifyFlags, Packages, is_clean, cmd_verify}
use mocking_box.Cli.Exit.{Verified, cmd_verify-zero}
use mocking_box.Mcp.Tools.{Dashboard, responded}
use mocking_box.Mcp.Serve.{Request, serve}
use mocking_box.Mcp.Confirmed.{starts, confirmed_lines, serve-starts}
use mocking_box.Mcp.Replies.{ids, expected, serve-ids}
use mocking_box.Ui.Settings.{Yaml, read_config, config_json}
use mocking_box.Ui.Settings.Kept.{shown, read_config-json}
use mocking_box.Diff.Verdict.{match}
use mocking_box.Replay.Run.{writeset_of}
use mocking_box.Replay.Verify.{verify_one}
use mocking_box.Replay.Unchanged.{verify_one-match}
use mocking_box.Tests.Samples.{plain, charge}

-- A stack that counts its requests and answers each with 200 and the same body.
abbrev services : Services plain
services = record {
  State = ℕ;
  canonical_key = λ k. k;
  refusal = λ m u. none;
  send = λ r s. (ok (record { status = pos 200; body = str "{}"; headers = [] }), suc s);
  begin_window = λ s. s;
  take_window = λ s. (ok [], s);
}

abbrev no_json : GoString → Option (Value plain)
no_json t = none

-- Timeouts in whole seconds.
abbrev seconds : Seconds
seconds = record { Time = ℕ; is_zero = λ t. false; ten = 10 }

abbrev shop : Datastore
shop = record {
  name = str "shop";
  type = str "postgres";
  host = str "db";
  port = pos 5432;
  user = str "app";
  password = str "secret";
  database = str "orders";
  schemas = str "public" ∷ [];
  exclude = [];
  seed_from = none;
}

abbrev stack : Stack
stack = record {
  name = str "new";
  base_url = str "http://new";
  mysql = none;
  datastores = shop ∷ [];
}

abbrev config : Config seconds
config = record {
  old = stack;
  new = stack;
  attribution = record { quiet_ms = pos 200; timeout_ms = pos 5000; check_innodb_trx = none };
  noise = record { response_paths = str "at" ∷ []; columns = []; tables_ignore = [] };
  sort_arrays = (str "items", str "id") ∷ [];
  http_timeout = 10;
  compare_headers = [];
  report_dir = str "report";
  corpus_dir = str "corpus";
  seed_source = none;
}

abbrev meta : Meta
meta = record {
  kind = str "meta";
  version = 1;
  created_at = [];
  upstream = str "http://old";
  serialized = true;
  source = str "proxy";
}

abbrev entry : Entry plain
entry = record {
  name = str "e";
  ts = [];
  method = str "GET";
  path = str "/";
  headers = [];
  body = null;
  expected = record { status = pos 200; body = str "{}"; writeset = some [] };
}

abbrev packages : Packages plain seconds services
packages = record {
  load_config = λ path. ok config;
  read_golden = λ path. ok (meta, entry ∷ []);
  load_corpus = λ path. fail path;
  start_verifier = λ cfg s. (ok tt, s);
  start_runner = λ cfg s. (ok tt, s);
  stop = λ s. s;
  Baseline = Unit;
  load_run = λ path. ok tt;
  apply_baseline = λ results b. results;
  write_json = λ results dir corpus old new. ok dir;
}

abbrev flags : VerifyFlags
flags = record { config = str "c.yaml"; golden = str "g.golden.jsonl"; baseline = [] }

cmd_verify-zero_example : Verified no_json services packages flags 0
unfolding cmd_verify is_clean
cmd_verify-zero_example = cmd_verify-zero no_json services packages flags 0 1 refl refl

-- A dashboard where nothing runs.
abbrev dashboard : Dashboard plain
dashboard = record {
  answer = λ h call. responded 200 (str "200 OK") (str "{}");
  seed_status = λ t. record { running = false; error = []; tables = 2; rows = 9 };
  replay_status = λ t. record { running = false; last_report = []; last_error = [] };
  run_files = λ t. [];
  run_report = λ t. none;
  indented = λ t. t;
  query_escape = λ t. t;
}

abbrev call_of : GoString → Fields plain → Request plain
call_of tool arguments = record {
  id = some (str "7");
  method = str "tools/call";
  tool = tool;
  arguments = arguments;
}

-- The lines "ask" and "yes" are calls of copy_db without and with confirm:true; all others do not parse.
abbrev parse : GoString → Option (Request plain)
parse [] = none
parse (c ∷ line) =
    if eqs (c ∷ line) (str "ask")
    then some (call_of (str "copy_db") end)
    else if eqs (c ∷ line) (str "yes")
    then some (call_of (str "copy_db") (field (str "confirm") (bool true) end))
    else none

abbrev session : List GoString
session = str "ask" ∷ str "  " ∷ str "yes" ∷ str "?" ∷ []

serve-starts_example :
    starts ((serve dashboard parse session []).1)
    ≤ confirmed_lines dashboard parse session + starts {N = plain} []
serve-starts_example = serve-starts dashboard parse session []

serve-ids_example : ids ((serve dashboard parse session []).0) ≡ expected dashboard parse session
serve-ids_example = serve-ids dashboard parse session []

abbrev text_of_value : Value plain → GoString
text_of_value (string s) = s
text_of_value v = []

abbrev number_of_value : Value plain → ℤ
number_of_value (sized int z) = z
number_of_value v = pos 0

abbrev bool_of_value : Value plain → Bool
bool_of_value (bool b) = b
bool_of_value v = false

abbrev time_of_value : Value plain → ℕ
time_of_value (sized int (pos n)) = n
time_of_value v = 0

-- A reader of texts, integers and Booleans.
abbrev yaml : Yaml plain seconds
yaml = record {
  time_json = λ t. sized int (pos t);
  read_text = text_of_value;
  read_number = number_of_value;
  read_bool = bool_of_value;
  read_time = time_of_value;
  zero_time = 0;
  read_text-string = λ s. refl;
  read_number-int = λ z h. refl;
  read_bool-bool = λ b. refl;
  read_time-json = λ t. refl;
}

read_config-json_example : read_config yaml (config_json yaml config) ≡ shown config
read_config-json_example = read_config-json yaml config (record {
  old = ((omega arith, tt), tt);
  new = ((omega arith, tt), tt);
  quiet = omega arith;
  timeout = omega arith;
})

-- What the golden recorded is what the stack wrote.
abbrev writing : Services plain
writing = record services { take_window = λ s. (ok (charge ∷ []), s) }

abbrev recorded_entry : Entry plain
recorded_entry = record entry {
  expected = record {
    status = pos 200;
    body = str "{}";
    writeset = some (writeset_of no_json config (charge ∷ []));
  };
}

abbrev answered : Fired plain
answered = record {
  response = record { status = pos 200; body = str "{}"; headers = [] };
  changes = charge ∷ [];
}

verify_one-match_example :
    (verify_one no_json config writing true recorded_entry 0).0.verdict ≡ match
unfolding fire_stack request_spec
verify_one-match_example =
    verify_one-match no_json config writing true recorded_entry 0 1 answered refl refl refl
      (inr refl)
