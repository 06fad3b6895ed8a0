-- ===== src/Replay/Run.antt =====
-- The live comparison of internal/replay/replay.go: `Runner.Run` and `runOne`. The time that a result
-- took is left out.
use mocking_box.Prelude.{
  Bool, List, [], ◌∷◌, ◌++◌, Option, GoString, str, ℤ, pos, Result, ok, fail, map,
}
use mocking_box.Diff.Value.{Numerics, Value}
use mocking_box.Diff.SortArrays.{SortRule}
use mocking_box.Diff.Response.{Difference, Options, diff_responses}
use mocking_box.Diff.Writeset.{RowChange, WriteEntry, normalize_writeset, diff_writesets}
use mocking_box.Diff.Verdict.{Verdict, error, verdict_of}
use mocking_box.Config.{Config, Seconds}
use mocking_box.Corpus.{RequestSpec, describe}
use mocking_box.Replay.Fire.{Services, Fired, fire_stack}

-- `Result`
pub record Outcome (N : Numerics) : Type 0 where
  pub name : GoString
  pub request : GoString
  pub verdict : Verdict
  pub error_text : GoString
  pub old_status : ℤ
  pub new_status : ℤ
  pub old_body : GoString
  pub new_body : GoString
  pub differences : List (Difference N)
  pub old_writeset : List (WriteEntry N)
  pub new_writeset : List (WriteEntry N)

-- A result that has failed: the verdict is ERROR, and nothing else is set.
unfoldable pub failed_outcome : {N : Numerics} → RequestSpec N → GoString → Outcome N
unfolding describe
failed_outcome spec message = record {
  name = spec.name;
  request = describe spec;
  verdict = error;
  error_text = message;
  old_status = pos 0;
  new_status = pos 0;
  old_body = [];
  new_body = [];
  differences = [];
  old_writeset = [];
  new_writeset = [];
}

-- `sortRules`
unfoldable pub sort_rules : {T : Seconds} → Config T → List SortRule
sort_rules cfg = map (λ r. record { path = r.0; by = r.1 }) (cfg.sort_arrays)

unfoldable pub run_options : {T : Seconds} → Config T → Options
unfolding sort_rules
run_options cfg = record {
  noise_paths = cfg.noise.response_paths;
  compare_headers = cfg.compare_headers;
  sort_rules = sort_rules cfg;
}

module _ {N : Numerics} {T : Seconds} (unmarshal : GoString → Option (Value N))
    (cfg : Config T) where
  unfoldable pub writeset_of : List (RowChange N) → List (WriteEntry N)
  unfolding normalize_writeset
  writeset_of changes = normalize_writeset changes (cfg.noise.columns) (cfg.noise.tables_ignore)

  -- `runOne` after both stacks answered
  unfoldable pub compared : RequestSpec N → Fired N → Fired N → Outcome N
  unfolding describe run_options writeset_of diff_responses diff_writesets verdict_of
  compared spec old new =
      let response_diffs =
        diff_responses unmarshal (old.response) (new.response) (run_options cfg) in
      let writeset_diffs = diff_writesets (writeset_of (old.changes)) (writeset_of (new.changes)) in
      record {
        name = spec.name;
        request = describe spec;
        verdict = verdict_of response_diffs writeset_diffs;
        error_text = [];
        old_status = old.response.status;
        new_status = new.response.status;
        old_body = old.response.body;
        new_body = new.response.body;
        differences = response_diffs ++ writeset_diffs;
        old_writeset = writeset_of (old.changes);
        new_writeset = writeset_of (new.changes);
      }

  module _ (S : Services N) (old_capture new_capture : Bool) where
    unfoldable pub after_new :
        RequestSpec N → Fired N → Result (Fired N) × S.State → Outcome N × S.State
    unfolding failed_outcome compared
    after_new spec old (fail e, s) = (failed_outcome spec (str "new: " ++ e), s)
    after_new spec old (ok new, s) = (compared spec old new, s)

    unfoldable pub after_old : RequestSpec N → Result (Fired N) × S.State → Outcome N × S.State
    unfolding failed_outcome fire_stack after_new
    after_old spec (fail e, s) = (failed_outcome spec (str "old: " ++ e), s)
    after_old spec (ok old, s) =
        after_new spec old (fire_stack S new_capture (cfg.new.base_url) spec s)

    -- `runOne`
    unfoldable pub run_one : RequestSpec N → S.State → Outcome N × S.State
    unfolding fire_stack after_old
    run_one spec s = after_old spec (fire_stack S old_capture (cfg.old.base_url) spec s)

    -- `Run`
    unfoldable pub run : List (RequestSpec N) → S.State → List (Outcome N) × S.State
    unfolding run_one
    run [] s = ([], s)
    run (spec ∷ specs) s =
        let (result, s') = run_one spec s in
        let (results, s'') = run specs s' in (result ∷ results, s'')
