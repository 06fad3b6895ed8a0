-- ===== src/Mcp/Confirmed.antt =====
-- The copies and the replays that a session of the MCP server starts.
use mocking_box.Prelude.{
  ℕ, zero, suc, ◌+◌, ◌≤◌, Bool, true, false, ◌||◌, List, [], ◌∷◌, Option, none, some, if◌then◌else◌,
  GoString, str, eqs, Result, ok, fail, then_run, arith,
}
use mocking_box.Diff.Value.{Numerics, Value, object, string, Fields, end, field, lookup}
use mocking_box.Mcp.Tools.{
  Call, Dashboard, Tool, get_config, test_connection, discover_db, set_config, health,
  list_recordings, list_runs, copy_db, verify, get_results, unknown, tool_named, is_true,
  string_argument, ReplayStatus,
}
use mocking_box.Mcp.Calls.{
  copy_refusal, History, request, fetch, send, pretty, poll_seed, poll_replay, replay_done,
  run_path, start_verify, set_config_of, copy_db_of, verify_of, get_results_of, results_of, latest,
  run_text, run_case, run_tool,
}
use mocking_box.Mcp.Serve.{
  Request, Method, initialize, notification, list_tools, call_tool, ping, other, method_named,
  call_reply, dispatch_case, dispatch, request_of, served, serve,
}

module _ {N : Numerics} where
  -- The calls that make the dashboard write to a database.
  abbrev pub is_start : Call N → Bool
  is_start call =
      eqs (call.path) (str "/api/seed/start") || eqs (call.path) (str "/api/replay/start")

  abbrev pub starts : List (Call N) → ℕ
  starts [] = 0
  starts (call ∷ h) = if is_start call then suc (starts h) else starts h

  abbrev pub confirmed_case : Tool → Fields N → ℕ
  confirmed_case copy_db args = if is_true (lookup (str "confirm") args) then 1 else 0
  confirmed_case verify args = if is_true (lookup (str "confirm") args) then 1 else 0
  confirmed_case tool args = 0

  abbrev pub confirmed_method : Method → Request N → ℕ
  confirmed_method call_tool req = confirmed_case (tool_named (req.tool)) (req.arguments)
  confirmed_method m req = 0

  -- 1 for a call of copy_db or verify with confirm:true, and 0 for any other line
  abbrev pub confirmed : Option (Request N) → ℕ
  confirmed none = 0
  confirmed (some req) = confirmed_method (method_named (req.method)) req

module _ {N : Numerics} (D : Dashboard N) where
  -- A computation adds at most this many starts to a history with so many of them.
  abbrev Adds {ℓ} : {A : Type ℓ} → ℕ → ℕ → A × History D → Type 0
  Adds n before r = starts (r.1) ≤ n + before

  then_run-Adds :
      {A B : Type 0} (n m before : ℕ) (r : Result A × History D)
      (f : A → History D → Result B × History D)
      → Adds n before r
      → ((a : A) (h : History D) → Adds m (starts h) (f a h))
      → Adds (n + m) before (then_run r f)
  then_run-Adds n m before (ok a, h) f first later = omega (arith, first, later a h)
  then_run-Adds n m before (fail e, h) f first later = omega (arith, first)

  pretty-Adds :
      (n before : ℕ) (r : Result GoString × History D)
      → Adds n before r
      → Adds n before (pretty D r)
  unfolding pretty
  pretty-Adds n before (ok t, h) first = first
  pretty-Adds n before (fail e, h) first = first

  run_text-Adds :
      (file : GoString) (only_diffs : Bool) (h : History D)
      → Adds 0 (starts h) (run_text D file only_diffs h)
  unfolding run_text fetch request eqs run_path
  run_text-Adds file only_diffs h =
      then_run-Adds 0 0 (starts h) (fetch D (run_path D file) h) _ (omega arith)
        (λ a k. omega arith)

  poll_seed-Adds : (fuel : ℕ) (h : History D) → Adds 0 (starts h) (poll_seed D fuel h)
  unfolding poll_seed fetch request eqs
  poll_seed-Adds zero h = omega arith
  poll_seed-Adds (suc fuel) h =
      then_run-Adds 0 0 (starts h) (fetch D (str "/api/seed/status") h) _ (omega arith)
        (λ a k. ground (arith, poll_seed-Adds fuel k))

  replay_done-Adds : (st : ReplayStatus) (h : History D) → Adds 0 (starts h) (replay_done D st h)
  unfolding replay_done request eqs run_path
  replay_done-Adds st h = go (st.last_error) (st.last_report)
    where
      go :
          (e report : GoString)
          → Adds 0
              (starts h)
              (replay_done D (record { running = false; last_report = report; last_error = e }) h)
      go (c ∷ e) report = omega arith
      go [] [] = omega arith
      go [] (c ∷ report) = omega arith

  poll_replay-Adds : (fuel : ℕ) (h : History D) → Adds 0 (starts h) (poll_replay D fuel h)
  unfolding poll_replay fetch request eqs
  poll_replay-Adds zero h = omega arith
  poll_replay-Adds (suc fuel) h =
      then_run-Adds 0 0 (starts h) (fetch D (str "/api/replay/status") h) _ (omega arith)
        (λ a k. ground (arith, poll_replay-Adds fuel k, replay_done-Adds (D.replay_status a) k))

  latest-Adds :
      (only_diffs : Bool) (files : List (Option GoString)) (h : History D)
      → Adds 0 (starts h) (latest D only_diffs files h)
  unfolding latest
  latest-Adds only_diffs [] h = omega arith
  latest-Adds only_diffs (none ∷ files) h = run_text-Adds [] only_diffs h
  latest-Adds only_diffs (some file ∷ files) h = run_text-Adds file only_diffs h

  results_of-Adds :
      (only_diffs : Bool) (file : GoString) (h : History D)
      → Adds 0 (starts h) (results_of D only_diffs file h)
  unfolding results_of fetch request eqs
  results_of-Adds only_diffs (c ∷ file) h = run_text-Adds (c ∷ file) only_diffs h
  results_of-Adds only_diffs [] h =
      then_run-Adds 0 0 (starts h) (fetch D (str "/api/runs") h) _ (omega arith)
        (λ a k. latest-Adds only_diffs (D.run_files a) k)

  if-Adds :
      {A : Type 0} (b : Bool) (before : ℕ) (x y : A × History D)
      → Adds 1 before x
      → Adds 0 before y
      → Adds (if b then 1 else 0) before (if b then x else y)
  if-Adds true before x y hx hy = hx
  if-Adds false before x y hx hy = hy

  start_seed-Adds :
      (fuel : ℕ) (h : History D)
      → Adds 1 (starts h) (
          then_run
            (send D (str "POST") (str "/api/seed/start") (object end) h)
            (λ _. poll_seed D fuel))
  unfolding send request eqs
  start_seed-Adds fuel h =
      then_run-Adds 1 0 (starts h) (send D (str "POST") (str "/api/seed/start") (object end) h)
        (λ _. poll_seed D fuel) (omega arith) (λ a k. poll_seed-Adds fuel k)

  start_replay-Adds :
      (fuel : ℕ) (body : Value N) (h : History D)
      → Adds 1 (starts h) (
          then_run (send D (str "POST") (str "/api/replay/start") body h) (λ _. poll_replay D fuel))
  unfolding send request eqs
  start_replay-Adds fuel body h =
      then_run-Adds 1 0 (starts h) (send D (str "POST") (str "/api/replay/start") body h)
        (λ _. poll_replay D fuel) (omega arith) (λ a k. poll_replay-Adds fuel k)

  copy_db_of-Adds :
      (args : Fields N) (h : History D)
      → Adds (confirmed_case copy_db args) (starts h) (copy_db_of D args h)
  unfolding copy_db_of
  copy_db_of-Adds args h =
      if-Adds (is_true (lookup (str "confirm") args)) (starts h)
        (then_run (send D (str "POST") (str "/api/seed/start") (object end) h)
          (λ _. poll_seed D 600))
        (fail copy_refusal, h) (start_seed-Adds 600 h) (omega arith)

  start_verify-Adds :
      (corpus : GoString) (h : History D) → Adds 1 (starts h) (start_verify D corpus h)
  unfolding start_verify
  start_verify-Adds [] h = omega arith
  start_verify-Adds (c ∷ corpus) h =
      start_replay-Adds 900 (object (field (str "corpus") (string (c ∷ corpus)) end)) h

  verify_of-Adds :
      (args : Fields N) (h : History D)
      → Adds (confirmed_case verify args) (starts h) (verify_of D args h)
  unfolding verify_of
  verify_of-Adds args h =
      if-Adds (is_true (lookup (str "confirm") args)) (starts h)
        (start_verify D (string_argument (lookup (str "corpus") args)) h)
        (fail (str "verify needs confirm:true"), h)
        (start_verify-Adds (string_argument (lookup (str "corpus") args)) h) (omega arith)

  set_config_of-Adds :
      (cfg : Option (Value N)) (h : History D) → Adds 0 (starts h) (set_config_of D cfg h)
  unfolding set_config_of send request eqs
  set_config_of-Adds none h = omega arith
  set_config_of-Adds (some cfg) h =
      pretty-Adds 0 (starts h) (send D (str "PUT") (str "/api/config") cfg h) (omega arith)

  run_case-Adds :
      (tool : Tool) (name : GoString) (args : Fields N) (h : History D)
      → Adds (confirmed_case tool args) (starts h) (run_case D tool name args h)
  unfolding run_case fetch send request eqs get_results_of
  run_case-Adds get_config name args h =
      pretty-Adds 0 (starts h) (fetch D (str "/api/config") h) (omega arith)
  run_case-Adds test_connection name args h =
      pretty-Adds 0 (starts h) (send D (str "POST") (str "/api/test-connection") (object args) h)
        (omega arith)
  run_case-Adds discover_db name args h =
      pretty-Adds 0 (starts h) (send D (str "POST") (str "/api/seed/discover") (object args) h)
        (omega arith)
  run_case-Adds set_config name args h = set_config_of-Adds _ h
  run_case-Adds health name args h =
      pretty-Adds 0 (starts h) (fetch D (str "/api/health") h) (omega arith)
  run_case-Adds list_recordings name args h =
      pretty-Adds 0 (starts h) (fetch D (str "/api/corpora") h) (omega arith)
  run_case-Adds list_runs name args h =
      pretty-Adds 0 (starts h) (fetch D (str "/api/runs") h) (omega arith)
  run_case-Adds copy_db name args h = copy_db_of-Adds args h
  run_case-Adds verify name args h = verify_of-Adds args h
  run_case-Adds get_results name args h = results_of-Adds _ _ h
  run_case-Adds unknown name args h = omega arith

  call_reply-Adds :
      (req : Request N) (h : History D)
      → Adds
          (confirmed_case (tool_named (req.tool)) (req.arguments))
          (starts h)
          (call_reply D req h)
  unfolding call_reply run_tool
  call_reply-Adds req h = run_case-Adds (tool_named (req.tool)) (req.tool) (req.arguments) h

  dispatch_case-Adds :
      (m : Method) (req : Request N) (h : History D)
      → Adds (confirmed_method m req) (starts h) (dispatch_case D m req h)
  unfolding dispatch_case
  dispatch_case-Adds initialize req h = omega arith
  dispatch_case-Adds notification req h = omega arith
  dispatch_case-Adds list_tools req h = omega arith
  dispatch_case-Adds call_tool req h = call_reply-Adds req h
  dispatch_case-Adds ping req h = omega arith
  dispatch_case-Adds other req h = omega arith

  module _ (parse : GoString → Option (Request N)) where
    served-Adds :
        (r : Option (Request N)) (h : History D)
        → Adds (confirmed r) (starts h) (served D parse r h)
    unfolding served dispatch
    served-Adds none h = omega arith
    served-Adds (some req) h = dispatch_case-Adds (method_named (req.method)) req h

    abbrev pub confirmed_lines : List GoString → ℕ
    confirmed_lines [] = 0
    confirmed_lines (line ∷ lines) = confirmed (request_of D parse line) + confirmed_lines lines

    -- A session starts at most one copy or replay for each of its calls of copy_db or verify that carries
    -- confirm:true, whatever else it asks for and whatever the dashboard answers: without such a call it
    -- starts none.
    pub serve-starts :
        (lines : List GoString) (h : History D)
        → starts ((serve D parse lines h).1) ≤ confirmed_lines lines + starts h
    unfolding serve
    serve-starts [] h = omega arith
    serve-starts (line ∷ lines) h =
        let r = request_of D parse line in
        let h' = (served D parse r h).1 in omega (arith, served-Adds r h, serve-starts lines h')
