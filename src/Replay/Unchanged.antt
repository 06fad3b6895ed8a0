-- ===== src/Replay/Unchanged.antt =====
-- The verification of a stack that answers as the golden recorded.
use mocking_box.Prelude.{
  ◌≡◌, refl, ◌⊎◌, inl, inr, Bool, List, [], ◌∷◌, Option, none, some, GoString, ok,
}
use mocking_box.Diff.Value.{Numerics, Value}
use mocking_box.Diff.Canonical.{equal_refl}
use mocking_box.Diff.Verdict.{match, verdict_of}
use mocking_box.Diff.Writeset.{WriteEntry, payload_map, group, diff_writesets}
use mocking_box.Diff.Writeset.Pairing.{Paired, diff_writesets_iff}
use mocking_box.Diff.Response.{diff_responses}
use mocking_box.Diff.Response.Same.{diff_responses-same}
use mocking_box.Config.{Config, Seconds}
use mocking_box.Golden.{Entry, request_spec}
use mocking_box.Replay.Fire.{Services, Fired, fire_stack}
use mocking_box.Replay.Run.{writeset_of}
use mocking_box.Replay.Verify.{
  verify_options, recorded, recorded_diffs, verified, after_fire, verify_one,
}

module _ {N : Numerics} where
  Paired-refl : (ws : List (WriteEntry N)) → Paired ws ws
  Paired-refl [] = tt
  Paired-refl (w ∷ ws) = (inl (equal_refl (payload_map w)), Paired-refl ws)

  diff_writesets-same : (ws : List (WriteEntry N)) → diff_writesets ws ws ≡ []
  diff_writesets-same ws = (diff_writesets_iff ws ws).1 (λ k. Paired-refl (group k ws))

  recorded_diffs-same :
      (o : Option (List (WriteEntry N))) (new : List (WriteEntry N))
      → (o ≡ none) ⊎ (o ≡ some new)
      → recorded_diffs o new ≡ []
  unfolding recorded_diffs
  recorded_diffs-same none new h = refl
  recorded_diffs-same (some old) new (inl e) = cc
  recorded_diffs-same (some old) new (inr e) =
      let same : old ≡ new = cc in rw same (diff_writesets-same new)

verdict_of-nil {ℓ} : {D : Type ℓ} (rs ws : List D) → rs ≡ [] → ws ≡ [] → verdict_of rs ws ≡ match
unfolding verdict_of
verdict_of-nil [] [] h k = refl
verdict_of-nil (r ∷ rs) ws h k = cc
verdict_of-nil [] (w ∷ ws) h k = cc

module _ {N : Numerics} {T : Seconds} (unmarshal : GoString → Option (Value N))
    (cfg : Config T) where
  verified-match :
      (entry : Entry N) (new : Fired N)
      → entry.expected.status ≡ new.response.status
      → entry.expected.body ≡ new.response.body
      → (entry.expected.writeset ≡ none)
        ⊎ (entry.expected.writeset ≡ some (writeset_of unmarshal cfg (new.changes)))
      → (verified unmarshal cfg entry new).verdict ≡ match
  unfolding verified recorded verify_options
  verified-match entry new status body writeset =
      verdict_of-nil
        (diff_responses unmarshal (recorded (entry.expected)) (new.response) (verify_options cfg))
        (recorded_diffs (entry.expected.writeset) (writeset_of unmarshal cfg (new.changes)))
        (diff_responses-same unmarshal (verify_options cfg) (recorded (entry.expected))
          (new.response) refl status body)
        (recorded_diffs-same (entry.expected.writeset) (writeset_of unmarshal cfg (new.changes))
          writeset)

  -- If the new stack answers a request with the status and the body of the golden, and if the golden holds
  -- no write-set or the normalized one of the rows that the stack wrote, the verdict is MATCH, whatever
  -- noise rules and sort rules are set.
  pub verify_one-match :
      (S : Services N) (capture : Bool) (entry : Entry N) (s s' : S.State) (new : Fired N)
      → fire_stack S capture (cfg.new.base_url) (request_spec entry) s ≡ (ok new, s')
      → entry.expected.status ≡ new.response.status
      → entry.expected.body ≡ new.response.body
      → (entry.expected.writeset ≡ none)
        ⊎ (entry.expected.writeset ≡ some (writeset_of unmarshal cfg (new.changes)))
      → (verify_one unmarshal cfg S capture entry s).0.verdict ≡ match
  unfolding verify_one after_fire
  verify_one-match S capture entry s s' new fired status body writeset =
      rw fired (verified-match entry new status body writeset)
