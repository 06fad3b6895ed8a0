-- ===== src/Replay/Verify.antt =====
-- The verification of internal/replay/verify.go: `Verifier.Run` and `verifyOne`, where a golden plays
-- the old stack.
use mocking_box.Prelude.{
  Bool, List, [], ◌∷◌, ◌++◌, Option, none, some, GoString, str, Result, ok, fail,
}
use mocking_box.Diff.Value.{Numerics, Value}
use mocking_box.Diff.Response.{Difference, Response, Options, diff_responses}
use mocking_box.Diff.Writeset.{WriteEntry, diff_writesets}
use mocking_box.Diff.Verdict.{verdict_of}
use mocking_box.Config.{Config, Seconds}
use mocking_box.Corpus.{describe}
use mocking_box.Golden.{Entry, Expected, request_spec}
use mocking_box.Replay.Fire.{Services, Fired, fire_stack}
use mocking_box.Replay.Run.{Outcome, failed_outcome, sort_rules, writeset_of}

-- A golden stores no headers, and none are compared.
unfoldable pub verify_options : {T : Seconds} → Config T → Options
unfolding sort_rules
verify_options cfg = record {
  noise_paths = cfg.noise.response_paths;
  compare_headers = [];
  sort_rules = sort_rules cfg;
}

-- The recorded response in the part of the old one.
unfoldable pub recorded : {N : Numerics} → Expected N → Response
recorded e = record { status = e.status; body = e.body; headers = [] }

-- A recorded write-set is compared; where there is none, nothing is.
unfoldable pub recorded_diffs :
    {N : Numerics} → Option (List (WriteEntry N)) → List (WriteEntry N) → List (Difference N)
unfolding diff_writesets
recorded_diffs none new = []
recorded_diffs (some old) new = diff_writesets old new

unfoldable pub recorded_writeset :
    {N : Numerics} → Option (List (WriteEntry N)) → List (WriteEntry N)
recorded_writeset none = []
recorded_writeset (some old) = old

module _ {N : Numerics} {T : Seconds} (unmarshal : GoString → Option (Value N))
    (cfg : Config T) where
  -- `verifyOne` after the new stack answered
  unfoldable pub verified : Entry N → Fired N → Outcome N
  unfolding describe request_spec verify_options writeset_of recorded recorded_diffs
      recorded_writeset diff_responses verdict_of
  verified entry new =
      let response_diffs =
        diff_responses unmarshal (recorded (entry.expected)) (new.response) (verify_options cfg) in
      let writeset_diffs =
        recorded_diffs (entry.expected.writeset) (writeset_of unmarshal cfg (new.changes)) in
      record {
        name = entry.name;
        request = describe (request_spec entry);
        verdict = verdict_of response_diffs writeset_diffs;
        error_text = [];
        old_status = entry.expected.status;
        new_status = new.response.status;
        old_body = entry.expected.body;
        new_body = new.response.body;
        differences = response_diffs ++ writeset_diffs;
        old_writeset = recorded_writeset (entry.expected.writeset);
        new_writeset = writeset_of unmarshal cfg (new.changes);
      }

  module _ (S : Services N) (capture : Bool) where
    unfoldable pub after_fire : Entry N → Result (Fired N) × S.State → Outcome N × S.State
    unfolding failed_outcome request_spec verified
    after_fire entry (fail e, s) = (failed_outcome (request_spec entry) (str "new: " ++ e), s)
    after_fire entry (ok new, s) = (verified entry new, s)

    -- `verifyOne`
    unfoldable pub verify_one : Entry N → S.State → Outcome N × S.State
    unfolding request_spec fire_stack after_fire
    verify_one entry s =
        after_fire entry (fire_stack S capture (cfg.new.base_url) (request_spec entry) s)

    -- `Run`
    unfoldable pub verify : List (Entry N) → S.State → List (Outcome N) × S.State
    unfolding verify_one
    verify [] s = ([], s)
    verify (entry ∷ entries) s =
        let (result, s') = verify_one entry s in
        let (results, s'') = verify entries s' in (result ∷ results, s'')
