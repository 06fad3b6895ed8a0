-- ===== src/Ui/Replaying/Finish.antt =====
-- What a replay leaves in the dashboard's status.
use mocking_box.Prelude.{
  ◌≡◌, refl, ℕ, suc, false, List, [], ◌∷◌, Option, none, some, GoString, eqs, length, ◌⊎◌, ◌≢◌,
  Result, ok, fail, inl, inr, Option-cases,
}
use mocking_box.Ui.Replaying.{
  Status, start_replay_state, on_progress, finish, run_progress, RunInputs, after_run, run_replay,
}

run_progress-done :
    (done total : ℕ) (names : List GoString) (s : Status)
    → ((run_progress done total names s).done ≡ total)
      × (((run_progress done total names s).total ≡ total)
          × ((run_progress done total names s).last_report ≡ s.last_report))
unfolding run_progress on_progress
run_progress-done done total [] s = (refl, (refl, refl))
run_progress-done done total (name ∷ names) s =
    run_progress-done (suc done) total names (on_progress done total name s)

-- The error that ends a run, if any.
abbrev pub failure : Option GoString → Result GoString → GoString
failure (some e) report = e
failure none (fail e) = e
failure none (ok path) = []

Result-cases :
    (r : Result GoString) → ((p : GoString) × (r ≡ ok p)) ⊎ ((e : GoString) × (r ≡ fail e))
Result-cases (ok p) = inl (p, refl)
Result-cases (fail e) = inr (e, refl)

-- However a replay ends, the next one can start: the dashboard is free and shows no current request,
-- and it shows the error of the run's start, or of writing its report, or none.
pub run_replay-free :
    (base : GoString → GoString) (names : List GoString) (inputs : RunInputs) (s : Status)
    → (start_replay_state (s.corpus) 0 (run_replay base names inputs s) ≢ none)
      × (((run_replay base names inputs s).current ≡ [])
          × ((run_replay base names inputs s).last_error
              ≡ failure (inputs.start_error) (inputs.report)))
unfolding run_replay finish after_run start_replay_state
run_replay-free base names inputs s = elim (Option-cases (inputs.start_error)) [
  | inl a ↦ elim (Result-cases (inputs.report)) [
    | inl (p, b) ↦ rw (a, b) ((λ q. cc), (refl, refl))
    | inr (m, b) ↦ rw (a, b) ((λ q. cc), (refl, refl))
  ]
  | inr (m, a) ↦ rw a ((λ q. cc), (refl, refl))
]

-- A replay that starts and whose report is written under a path has done all of its requests and
-- shows that report.
pub run_replay-done :
    (base : GoString → GoString) (names : List GoString) (inputs : RunInputs) (s : Status)
    (path : GoString)
    → inputs.start_error ≡ none
    → inputs.report ≡ ok path
    → eqs path [] ≡ false
    → ((run_replay base names inputs s).done ≡ length names)
      × (((run_replay base names inputs s).total ≡ length names)
          × ((run_replay base names inputs s).last_report ≡ base path))
unfolding run_replay finish after_run
run_replay-done base names inputs s path a b c =
    let (d, (t, _)) = run_progress-done 0 (length names) names s in rw (a, b) (d, (t, rw c))
