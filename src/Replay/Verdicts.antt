-- ===== src/Replay/Verdicts.antt =====
-- What the verdicts of internal/replay say of the errors and differences they stand for.
use mathlib.Core.List.{append-nil}
use mocking_box.Prelude.{
  ◌∙◌, ◌≡◌, refl, ◌≢◌, ◌↔◌, Bool, List, [], ◌∷◌, ◌++◌, map, All, Option, none, GoString, Result, ok,
  fail, inl, inr, ◌⊎◌,
}
use mocking_box.Diff.Value.{Numerics, Value}
use mocking_box.Diff.Response.{Difference, diff_responses}
use mocking_box.Diff.Verdict.{match, response_diff, noise, error, verdict_of}
use mocking_box.Config.{Config, Seconds}
use mocking_box.Corpus.{RequestSpec}
use mocking_box.Golden.{Entry, request_spec}
use mocking_box.Replay.Fire.{Services, Fired, fire_stack}
use mocking_box.Replay.Run.{Outcome, failed_outcome, compared, after_new, after_old, run_one, run}
use mocking_box.Replay.Verify.{
  verified, after_fire, verify_one, verify, recorded_diffs, recorded, verify_options,
}

module _ {ℓ} {D : Type ℓ} where
  verdict_of-ne_error : (rs ws : List D) → verdict_of rs ws ≢ error
  unfolding verdict_of
  verdict_of-ne_error [] [] e = cc
  verdict_of-ne_error (r ∷ rs) (w ∷ ws) e = cc
  verdict_of-ne_error (r ∷ rs) [] e = cc
  verdict_of-ne_error [] (w ∷ ws) e = cc

  verdict_of-match_iff : (rs ws : List D) → (verdict_of rs ws ≡ match) ↔ (rs ++ ws ≡ [])
  unfolding verdict_of
  verdict_of-match_iff [] [] = (λ e. refl, λ e. refl)
  verdict_of-match_iff (r ∷ rs) (w ∷ ws) = (λ e. cc, λ e. cc)
  verdict_of-match_iff (r ∷ rs) [] = (λ e. cc, λ e. cc)
  verdict_of-match_iff [] (w ∷ ws) = (λ e. cc, λ e. cc)

  verdict_of-ne_noise : (rs ws : List D) → verdict_of rs ws ≢ noise
  unfolding verdict_of
  verdict_of-ne_noise [] [] e = cc
  verdict_of-ne_noise (r ∷ rs) (w ∷ ws) e = cc
  verdict_of-ne_noise (r ∷ rs) [] e = cc
  verdict_of-ne_noise [] (w ∷ ws) e = cc

-- ERROR with an error and no difference, or no error and MATCH for no differences only.
abbrev pub IsConsistent : {N : Numerics} → Outcome N → Type 0
IsConsistent o =
    ((o.verdict ≡ error) × ((o.error_text ≢ []) × (o.differences ≡ [])))
    ⊎ ((o.verdict ≢ error) × ((o.error_text ≡ []) × ((o.verdict ≡ match) ↔ (o.differences ≡ []))))

-- The differences are those given, and the verdict is MATCH if there are none and RESPONSE_DIFF
-- otherwise.
abbrev pub IsJudgedBy : {N : Numerics} → List (Difference N) → Outcome N → Type 0
IsJudgedBy [] o = (o.differences ≡ []) × (o.verdict ≡ match)
IsJudgedBy (d ∷ ds) o = (o.differences ≡ d ∷ ds) × (o.verdict ≡ response_diff)

module _ {N : Numerics} {T : Seconds} (unmarshal : GoString → Option (Value N))
    (cfg : Config T) where
  compared-IsConsistent :
      (spec : RequestSpec N) (old new : Fired N)
      → IsConsistent (compared unmarshal cfg spec old new)
  unfolding compared
  compared-IsConsistent spec old new =
      inr (verdict_of-ne_error _ _, (refl, verdict_of-match_iff _ _))

  verified-IsConsistent :
      (entry : Entry N) (new : Fired N) → IsConsistent (verified unmarshal cfg entry new)
  unfolding verified
  verified-IsConsistent entry new = inr (verdict_of-ne_error _ _, (refl, verdict_of-match_iff _ _))

  module _ (S : Services N) where
    after_new-IsConsistent :
        (o n : Bool) (spec : RequestSpec N) (old : Fired N) (r : Result (Fired N) × S.State)
        → IsConsistent ((after_new unmarshal cfg S o n spec old r).0)
          × ((after_new unmarshal cfg S o n spec old r).0.name ≡ spec.name)
    unfolding after_new failed_outcome compared
    after_new-IsConsistent o n spec old (fail e, s) = (inl (refl, (λ p. cc, refl)), refl)
    after_new-IsConsistent o n spec old (ok new, s) = (compared-IsConsistent spec old new, refl)

    after_old-IsConsistent :
        (o n : Bool) (spec : RequestSpec N) (r : Result (Fired N) × S.State)
        → IsConsistent ((after_old unmarshal cfg S o n spec r).0)
          × ((after_old unmarshal cfg S o n spec r).0.name ≡ spec.name)
    unfolding after_old failed_outcome
    after_old-IsConsistent o n spec (fail e, s) = (inl (refl, (λ p. cc, refl)), refl)
    after_old-IsConsistent o n spec (ok old, s) =
        after_new-IsConsistent o n spec old (fire_stack S n (cfg.new.base_url) spec s)

    after_fire-IsConsistent :
        (capture : Bool) (entry : Entry N) (r : Result (Fired N) × S.State)
        → IsConsistent ((after_fire unmarshal cfg S capture entry r).0)
          × ((after_fire unmarshal cfg S capture entry r).0.name ≡ entry.name)
    unfolding after_fire failed_outcome request_spec verified
    after_fire-IsConsistent capture entry (fail e, s) = (inl (refl, (λ p. cc, refl)), refl)
    after_fire-IsConsistent capture entry (ok new, s) = (verified-IsConsistent entry new, refl)

    -- A live run has one result for every request, in their order, and each of them is either ERROR
    -- with an error text and no difference, or without an error text and MATCH exactly when it lists
    -- no difference, whatever the stacks and the write-set sources answer.
    pub run-IsConsistent :
        (o n : Bool) (specs : List (RequestSpec N)) (s : S.State)
        → (map (λ r. r.name) ((run unmarshal cfg S o n specs s).0) ≡ map (λ r. r.name) specs)
          × All IsConsistent ((run unmarshal cfg S o n specs s).0)
    unfolding run run_one
    run-IsConsistent o n [] s = (refl, tt)
    run-IsConsistent o n (spec ∷ specs) s =
        let (h, e) = after_old-IsConsistent o n spec (fire_stack S o (cfg.old.base_url) spec s) in
        let (es, hs) = run-IsConsistent o n specs ((run_one unmarshal cfg S o n spec s).1) in
        (λ i. e i ∷ es i, (h, hs))

    -- A verification has one result for every entry of the golden, in their order, each consistent in
    -- the sense of a live run's results.
    pub verify-IsConsistent :
        (capture : Bool) (entries : List (Entry N)) (s : S.State)
        → (map (λ r. r.name) ((verify unmarshal cfg S capture entries s).0)
            ≡ map (λ e. e.name) entries)
          × All IsConsistent ((verify unmarshal cfg S capture entries s).0)
    unfolding verify verify_one
    verify-IsConsistent capture [] s = (refl, tt)
    verify-IsConsistent capture (entry ∷ entries) s =
        let (h, e) =
          after_fire-IsConsistent capture entry
            (fire_stack S capture (cfg.new.base_url) (request_spec entry) s) in
        let (es, hs) =
          verify-IsConsistent capture entries ((verify_one unmarshal cfg S capture entry s).1) in
        (λ i. e i ∷ es i, (h, hs))

    after_fire-ne_noise :
        (capture : Bool) (entry : Entry N) (r : Result (Fired N) × S.State)
        → (after_fire unmarshal cfg S capture entry r).0.verdict ≢ noise
    unfolding after_fire failed_outcome verified
    after_fire-ne_noise capture entry (fail e, s) = λ q. cc
    after_fire-ne_noise capture entry (ok new, s) = verdict_of-ne_noise _ _

    -- No result of a verification is NOISE of its own.
    pub verify-ne_noise :
        (capture : Bool) (entries : List (Entry N)) (s : S.State)
        → All (λ o. o.verdict ≢ noise) ((verify unmarshal cfg S capture entries s).0)
    unfolding verify verify_one
    verify-ne_noise capture [] s = tt
    verify-ne_noise capture (entry ∷ entries) s = (
      after_fire-ne_noise capture entry
          (fire_stack S capture (cfg.new.base_url) (request_spec entry) s),
      verify-ne_noise capture entries ((verify_one unmarshal cfg S capture entry s).1),
    )

    judged :
        (ds : List (Difference N)) (o : Outcome N)
        → o.differences ≡ ds ++ []
        → o.verdict ≡ verdict_of ds []
        → IsJudgedBy ds o
    unfolding verdict_of
    judged [] o e v = (e, v)
    judged (d ∷ ds) o e v = (e ∙ append-nil (d ∷ ds), v)

    -- If the new stack answers, an entry whose golden holds no write-set is judged by its response
    -- alone: the differences are those between the recorded response and the answer, and the verdict is
    -- MATCH if there are none and RESPONSE_DIFF otherwise, whatever the stack wrote.
    pub verify_one-IsJudgedBy :
        (capture : Bool) (entry : Entry N) (s s' : S.State) (new : Fired N)
        → fire_stack S capture (cfg.new.base_url) (request_spec entry) s ≡ (ok new, s')
        → entry.expected.writeset ≡ none
        → IsJudgedBy
            (diff_responses unmarshal
              (recorded (entry.expected))
              (new.response)
              (verify_options cfg))
            ((verify_one unmarshal cfg S capture entry s).0)
    unfolding verify_one after_fire verified recorded_diffs
    verify_one-IsJudgedBy capture entry s s' new f h = judged _ _ (rw (f, h) refl) (rw (f, h) refl)
