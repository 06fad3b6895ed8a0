-- ===== src/Mcp/Calls.antt =====
-- `runTool` of internal/mcp/tools.go and what it calls. The state is the list of the calls, the newest
-- first.
use mocking_box.Prelude.{
  ℕ, zero, suc, Bool, true, List, [], ◌∷◌, ◌++◌, Option, none, some, if◌then◌else◌, GoString, str,
  itoa, Result, ok, fail, then_run,
}
use mocking_box.Diff.Value.{Numerics, Value, string, object, Fields, end, field, lookup}
use mocking_box.Mcp.Tools.{
  Tool, get_config, test_connection, discover_db, set_config, health, list_recordings, list_runs,
  copy_db, verify, get_results, unknown, tool_named, Call, Fetched, SeedStatus, ReplayStatus,
  RunReport, Dashboard, fetched, summary_lines, string_argument, is_true,
}

-- The error of `copy_db` without confirm:true
abbrev pub copy_refusal : GoString
copy_refusal =
    str "copy_db needs confirm:true "
    ++ (226
        ∷ 128
        ∷ 148
        ∷ str " this copies data into the verification DB. Confirm with the user first.")

module _ {N : Numerics} (D : Dashboard N) where
  abbrev pub History : Type 0
  History = List (Call N)

  -- `do`
  unfoldable pub request : GoString → GoString → Option (Value N) → History → Fetched × History
  unfolding fetched
  request verb path body h =
      let call : Call N = record { verb = verb; path = path; body = body } in
      (fetched (D.answer h call), call ∷ h)

  abbrev pub to_result : Fetched × History → Result GoString × History
  to_result (f, h) = (go (f.err), h)
    where
      go : Option GoString → Result GoString
      go none = ok (f.data_text)
      go (some e) = fail e

  -- `get`, where the error counts
  unfoldable pub fetch : GoString → History → Result GoString × History
  unfolding request
  fetch path h = to_result (request (str "GET") path none h)

  -- `postJSON` and `putJSON`
  unfoldable pub send : GoString → GoString → Value N → History → Result GoString × History
  unfolding request
  send verb path body h = to_result (request verb path (some body) h)

  -- `pretty`
  unfoldable pub pretty : Result GoString × History → Result GoString × History
  pretty r = then_run r (λ data_text h. (ok (D.indented data_text), h))

  -- `summarizeRun`
  unfoldable pub summarize_run : GoString → Bool → GoString
  unfolding summary_lines
  summarize_run data_text only_diffs = go (D.run_report data_text)
    where
      go : Option RunReport → GoString
      go none = data_text
      go (some run) =
          str "corpus: "
          ++ (run.corpus
              ++ (10
                  ∷ (str "summary: "
                      ++ (run.summary ++ (10 ∷ summary_lines only_diffs (run.results))))))

  -- The path of a run's file
  unfoldable pub run_path : GoString → GoString
  run_path file = str "/api/run?file=" ++ D.query_escape file

  -- The end of `pollSeed`
  unfoldable pub seed_done : SeedStatus → Result GoString
  unfolding itoa
  seed_done st = go (st.error)
    where
      go : GoString → Result GoString
      go (c ∷ e) = fail (c ∷ e)
      go [] = ok (
          str "copy complete: "
          ++ (itoa (st.tables)
              ++ (str " tables, " ++ (itoa (st.rows) ++ str " rows into the verification DB"))))

  -- `pollSeed`, for at most `fuel` turns
  unfoldable pub poll_seed : ℕ → History → Result GoString × History
  unfolding fetch seed_done
  poll_seed zero h = (ok (str "copy still running (timed out waiting)"), h)
  poll_seed (suc fuel) h = then_run (fetch (str "/api/seed/status") h) (λ data_text h'.
      let st = D.seed_status data_text in
      let later = poll_seed fuel h' in if st.running then later else (seed_done st, h'))

  -- The end of `pollReplay`
  unfoldable pub replay_done : ReplayStatus → History → Result GoString × History
  unfolding request summarize_run run_path
  replay_done st h = go (st.last_error) (st.last_report)
    where
      go : GoString → GoString → Result GoString × History
      go (c ∷ e) report = (fail (c ∷ e), h)
      go [] [] = (ok (str "verification finished"), h)
      go [] (c ∷ report) =
          let (f, h') = request (str "GET") (run_path (c ∷ report)) none h in
          (ok (summarize_run (f.data_text) true), h')

  -- `pollReplay`, for at most `fuel` turns
  unfoldable pub poll_replay : ℕ → History → Result GoString × History
  unfolding fetch replay_done
  poll_replay zero h = (ok (str "verification still running (timed out)"), h)
  poll_replay (suc fuel) h = then_run (fetch (str "/api/replay/status") h) (λ data_text h'.
      let st = D.replay_status data_text in
      let later = poll_replay fuel h' in if st.running then later else replay_done st h')

  -- The case `set_config`
  unfoldable pub set_config_of : Option (Value N) → History → Result GoString × History
  unfolding pretty send
  set_config_of none h = (fail (str "config argument required"), h)
  set_config_of (some cfg) h = pretty (send (str "PUT") (str "/api/config") cfg h)

  -- The case `copy_db`
  unfoldable pub copy_db_of : Fields N → History → Result GoString × History
  unfolding is_true lookup send poll_seed
  copy_db_of args h =
      if is_true (lookup (str "confirm") args)
      then then_run (send (str "POST") (str "/api/seed/start") (object end) h) (λ _. poll_seed 600)
      else (fail copy_refusal, h)

  -- The case `verify`, once it is confirmed
  unfoldable pub start_verify : GoString → History → Result GoString × History
  unfolding send poll_replay
  start_verify [] h = (fail (str "corpus required (see list_recordings)"), h)
  start_verify (c ∷ corpus) h =
      then_run
        (send (str "POST") (str "/api/replay/start")
          (object (field (str "corpus") (string (c ∷ corpus)) end)) h)
        (λ _. poll_replay 900)

  -- The case `verify`
  unfoldable pub verify_of : Fields N → History → Result GoString × History
  unfolding is_true lookup string_argument start_verify
  verify_of args h =
      if is_true (lookup (str "confirm") args)
      then start_verify (string_argument (lookup (str "corpus") args)) h
      else (fail (str "verify needs confirm:true"), h)

  -- The end of `get_results`: a run's summary
  unfoldable pub run_text : GoString → Bool → History → Result GoString × History
  unfolding fetch summarize_run run_path
  run_text file only_diffs h =
      then_run (fetch (run_path file) h)
        (λ data_text h'. (ok (summarize_run data_text only_diffs), h'))

  -- The case `get_results` without a file, from the list of the runs
  unfoldable pub latest : Bool → List (Option GoString) → History → Result GoString × History
  unfolding run_text
  latest only_diffs [] h = (ok (str "no runs yet"), h)
  latest only_diffs (none ∷ runs) h = run_text [] only_diffs h
  latest only_diffs (some file ∷ runs) h = run_text file only_diffs h

  -- The case `get_results`, by its file
  unfoldable pub results_of : Bool → GoString → History → Result GoString × History
  unfolding fetch run_text latest
  results_of only_diffs (c ∷ file) h = run_text (c ∷ file) only_diffs h
  results_of only_diffs [] h =
      then_run (fetch (str "/api/runs") h) (λ runs. latest only_diffs (D.run_files runs))

  -- The case `get_results`
  unfoldable pub get_results_of : Fields N → History → Result GoString × History
  unfolding is_true lookup string_argument results_of
  get_results_of args h =
      results_of (is_true (lookup (str "only_diffs") args))
        (string_argument (lookup (str "file") args)) h

  -- `runTool`, by the case of the name
  unfoldable pub run_case : Tool → GoString → Fields N → History → Result GoString × History
  unfolding pretty fetch send lookup set_config_of copy_db_of verify_of get_results_of
  run_case get_config name args h = pretty (fetch (str "/api/config") h)
  run_case test_connection name args h =
      pretty (send (str "POST") (str "/api/test-connection") (object args) h)
  run_case discover_db name args h =
      pretty (send (str "POST") (str "/api/seed/discover") (object args) h)
  run_case set_config name args h = set_config_of (lookup (str "config") args) h
  run_case health name args h = pretty (fetch (str "/api/health") h)
  run_case list_recordings name args h = pretty (fetch (str "/api/corpora") h)
  run_case list_runs name args h = pretty (fetch (str "/api/runs") h)
  run_case copy_db name args h = copy_db_of args h
  run_case verify name args h = verify_of args h
  run_case get_results name args h = get_results_of args h
  run_case unknown name args h = (fail (str "unknown tool \"" ++ (name ++ str "\"")), h)

  -- `runTool`
  unfoldable pub run_tool : GoString → Fields N → History → Result GoString × History
  unfolding run_case tool_named
  run_tool name args h = run_case (tool_named name) name args h
