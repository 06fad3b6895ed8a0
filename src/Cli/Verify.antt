-- ===== src/Cli/Verify.antt =====
-- `cmdVerify` and `cmdRun` of cmd/mockingbox/main.go over the verifier and the runner. Reading files,
-- the sources' start and stop, the baseline and the report are parameters; a fatal error exits with 1 and
-- stops nothing. Console output and the seed marker's message are left out.
use mocking_box.Prelude.{
  ℕ, Bool, true, false, ◌||◌, List, [], ◌∷◌, ◌++◌, Option, some, if◌then◌else◌, GoString, str, eqs,
  Result, ok, fail, then_run,
}
use mocking_box.Diff.Value.{Numerics, Value}
use mocking_box.Diff.Verdict.{Verdict, match, noise}
use mocking_box.Config.{Config, Seconds}
use mocking_box.Config.Choice.{Source, source_for}
use mocking_box.Corpus.{RequestSpec}
use mocking_box.Golden.{Entry, Meta}
use mocking_box.Replay.Fire.{Services}
use mocking_box.Replay.Run.{Outcome, run}
use mocking_box.Replay.Verify.{verify}

pub record VerifyFlags : Type 0 where
  pub config : GoString
  pub golden : GoString
  pub baseline : GoString

pub record RunFlags : Type 0 where
  pub config : GoString
  pub corpus : GoString

-- What the commands use of the other packages: `config.Load`, `golden.Read` and `corpus.Load` of a path,
-- `Start` and `Stop` of the sources that there are, and the report, by its corpus and the two URLs.
pub record Packages (N : Numerics) (T : Seconds) (S : Services N) : Type 1 where
  pub load_config : GoString → Result (Config T)
  pub read_golden : GoString → Result (Meta × List (Entry N))
  pub load_corpus : GoString → Result (List (RequestSpec N))
  pub start_verifier : Config T → S.State → Result (Unit {0}) × S.State
  pub start_runner : Config T → S.State → Result (Unit {0}) × S.State
  pub stop : S.State → S.State
  pub Baseline : Type 0
  pub load_run : GoString → Result Baseline
  pub apply_baseline : List (Outcome N) → Baseline → List (Outcome N)
  pub write_json : List (Outcome N) → GoString → GoString → GoString → GoString → Result GoString

-- The verifier and the runner have a source for a stack where `For` gives one.
unfoldable pub has_source : Result (Option Source) → Bool
has_source (ok (some source)) = true
has_source r = false

unfoldable pub is_clean : Verdict → Bool
is_clean match = true
is_clean noise = true
is_clean v = false

unfoldable pub is_match : Verdict → Bool
is_match match = true
is_match v = false

module _ {N : Numerics} where
  -- The loop over the results at the end: 1 at the first one that is not clean
  unfoldable pub status_of : (Verdict → Bool) → List (Outcome N) → ℕ
  status_of clean [] = 0
  status_of clean (r ∷ rs) = let rest = status_of clean rs in if clean (r.verdict) then rest else 1

module _ {N : Numerics} {T : Seconds} (unmarshal : GoString → Option (Value N)) (S : Services N)
    (P : Packages N T S) where
  -- What `log.Fatalf` and the return of a command exit with; the sources are stopped by the return only.
  unfoldable pub exit_of : Result ℕ × S.State → ℕ × S.State
  exit_of (ok status, s) = (status, P.stop s)
  exit_of (fail e, s) = (1, s)

  -- The results after the baseline, if there is one
  unfoldable pub rebased : GoString → List (Outcome N) → Result (List (Outcome N))
  rebased [] results = ok results
  rebased (c ∷ path) results = go (P.load_run (c ∷ path))
    where
      go : Result P.Baseline → Result (List (Outcome N))
      go (fail e) = fail e
      go (ok baseline) = ok (P.apply_baseline results baseline)

  -- The end of a command, once the report is written or not
  unfoldable pub reported :
      (Verdict → Bool) → List (Outcome N) → S.State → Result GoString → Result ℕ × S.State
  unfolding status_of
  reported clean results s (fail e) = (fail e, s)
  reported clean results s (ok path) = (ok (status_of clean results), s)

  -- `cmdVerify` from the results on
  unfoldable pub after_verify :
      VerifyFlags → Config T → List (Outcome N) → S.State → Result ℕ × S.State
  unfolding rebased reported
  after_verify flags cfg results s = go (rebased (flags.baseline) results)
    where
      go : Result (List (Outcome N)) → Result ℕ × S.State
      go (fail e) = (fail e, s)
      go (ok results') = reported is_clean results' s (
          P.write_json results' (cfg.report_dir) (flags.golden ++ str " (verify)")
            (str "golden:" ++ flags.golden) (cfg.new.base_url))

  -- `cmdVerify` with a golden that is read
  unfoldable pub verify_entries :
      VerifyFlags → Config T → List (Entry N) → S.State → Result ℕ × S.State
  unfolding has_source source_for verify after_verify
  verify_entries flags cfg entries s = then_run (P.start_verifier cfg s) (λ _ s1.
      let (results, s2) =
        verify unmarshal cfg S (has_source (source_for (cfg.new.datastores))) entries s1 in
      after_verify flags cfg results s2)

  -- `cmdVerify`, with what reading the golden gives
  unfoldable pub verify_golden :
      VerifyFlags → Config T → Result (Meta × List (Entry N)) → S.State → Result ℕ × S.State
  unfolding verify_entries
  verify_golden flags cfg (fail e) s = (fail e, s)
  verify_golden flags cfg (ok (meta, entries)) s = verify_entries flags cfg entries s

  -- `cmdVerify`, with what loading the configuration gives
  unfoldable pub verify_config : VerifyFlags → Result (Config T) → S.State → Result ℕ × S.State
  unfolding verify_golden
  verify_config flags (fail e) s = (fail e, s)
  verify_config flags (ok cfg) s = verify_golden flags cfg (P.read_golden (flags.golden)) s

  -- `cmdVerify`
  unfoldable pub cmd_verify : VerifyFlags → S.State → ℕ × S.State
  unfolding eqs exit_of verify_config
  cmd_verify flags s =
      if eqs (flags.config) [] || eqs (flags.golden) []
      then (2, s)
      else exit_of (verify_config flags (P.load_config (flags.config)) s)

  -- `cmdRun` with a corpus that is read
  unfoldable pub run_specs :
      RunFlags → Config T → List (RequestSpec N) → S.State → Result ℕ × S.State
  unfolding has_source source_for run reported
  run_specs flags cfg specs s = then_run (P.start_runner cfg s) (λ _ s1.
      let (results, s2) =
        run unmarshal cfg S (has_source (source_for (cfg.old.datastores)))
          (has_source (source_for (cfg.new.datastores))) specs s1 in
      reported is_match results s2 (
        P.write_json results (cfg.report_dir) (flags.corpus) (cfg.old.base_url) (cfg.new.base_url)))

  -- `cmdRun`, with what loading the corpus gives
  run_corpus : RunFlags → Config T → Result (List (RequestSpec N)) → S.State → Result ℕ × S.State
  unfolding run_specs
  run_corpus flags cfg (fail e) s = (fail e, s)
  run_corpus flags cfg (ok specs) s = run_specs flags cfg specs s

  -- `cmdRun`, with what loading the configuration gives
  run_config : RunFlags → Result (Config T) → S.State → Result ℕ × S.State
  unfolding eqs run_corpus
  run_config flags (fail e) s = (fail e, s)
  run_config flags (ok cfg) s =
      if eqs (cfg.old.base_url) []
      then (fail (str "live-parallel mode needs old.base_url in config"), s)
      else run_corpus flags cfg (P.load_corpus (flags.corpus)) s

  -- `cmdRun`
  unfoldable pub cmd_run : RunFlags → S.State → ℕ × S.State
  unfolding eqs exit_of run_config
  cmd_run flags s =
      if eqs (flags.config) [] || eqs (flags.corpus) []
      then (2, s)
      else exit_of (run_config flags (P.load_config (flags.config)) s)
