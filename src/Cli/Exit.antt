-- ===== src/Cli/Exit.antt =====
-- What the exit status 0 of `cmdVerify` says.
use mocking_box.Prelude.{
  ◌≡◌, ◌≢◌, refl, ℕ, true, ◌||◌, List, [], ◌∷◌, map, All, Option, Bool-cases, inl, inr, ◌⊎◌,
  GoString, eqs, Result, ok, fail, then_run-ok, arith,
}
use mocking_box.Diff.Value.{Numerics, Value}
use mocking_box.Diff.Verdict.{Verdict, match, noise, response_diff, writeset_diff, both_diff, error}
use mocking_box.Config.{Config, Seconds}
use mocking_box.Config.Choice.{source_for}
use mocking_box.Golden.{Entry, Meta}
use mocking_box.Replay.Fire.{Services}
use mocking_box.Replay.Run.{Outcome}
use mocking_box.Replay.Verify.{verify}
use mocking_box.Replay.Verdicts.{IsConsistent, verify-IsConsistent, verify-ne_noise}
use mocking_box.Cli.Verify.{
  VerifyFlags, Packages, has_source, is_clean, status_of, exit_of, rebased, reported, after_verify,
  verify_entries, verify_golden, verify_config, cmd_verify,
}

-- A result without an error and without a difference.
abbrev pub IsPassed : {N : Numerics} → Outcome N → Type 0
IsPassed o = (o.error_text ≡ []) × (o.differences ≡ [])

is_clean-cases : (v : Verdict) → is_clean v ≡ true → (v ≡ match) ⊎ (v ≡ noise)
unfolding is_clean
is_clean-cases match h = inl refl
is_clean-cases noise h = inr refl
is_clean-cases response_diff h = cc
is_clean-cases writeset_diff h = cc
is_clean-cases both_diff h = cc
is_clean-cases error h = cc

one-ne_zero : ◌≢◌ {A = ℕ} 1 0
one-ne_zero h = omega (arith, h)

module _ {N : Numerics} where
  status_of-zero :
      (rs : List (Outcome N))
      → status_of is_clean rs ≡ 0
      → All (λ r. is_clean (r.verdict) ≡ true) rs
  unfolding status_of
  status_of-zero [] h = tt
  status_of-zero (r ∷ rs) h = elim (Bool-cases (is_clean (r.verdict))) [
    | inl e ↦ (e, status_of-zero rs (rw e at h))
    | inr e ↦ absurd (one-ne_zero (rw e at h))
  ]

  passed :
      (o : Outcome N)
      → IsConsistent o
      → o.verdict ≢ noise
      → is_clean (o.verdict) ≡ true
      → IsPassed o
  passed o consistent quiet clean = go consistent (is_clean-cases (o.verdict) clean)
    where
      go : IsConsistent o → (o.verdict ≡ match) ⊎ (o.verdict ≡ noise) → IsPassed o
      go c (inr e) = absurd (quiet e)
      go (inr (kind, (text, same))) (inl e) = (text, same.0 e)
      go (inl (kind, rest)) (inl e) = cc

  All-IsPassed :
      (os : List (Outcome N))
      → All IsConsistent os
      → All (λ o. o.verdict ≢ noise) os
      → All (λ o. is_clean (o.verdict) ≡ true) os
      → All IsPassed os
  All-IsPassed [] h k c = tt
  All-IsPassed (o ∷ os) (h, hs) (k, ks) (c, cs) = (passed o h k c, All-IsPassed os hs ks cs)

module _ {N : Numerics} {T : Seconds} (unmarshal : GoString → Option (Value N)) (S : Services N)
    (P : Packages N T S) where
  exit_of-zero :
      (r : Result ℕ × S.State) (s' : S.State)
      → exit_of unmarshal S P r ≡ (0, s')
      → (s1 : S.State) × (r ≡ (ok 0, s1))
  unfolding exit_of
  exit_of-zero (ok n, s1) s' e = (s1, cc)
  exit_of-zero (fail m, s1) s' e = cc

  reported-zero :
      (results : List (Outcome N)) (s s1 : S.State) (w : Result GoString)
      → reported unmarshal S P is_clean results s w ≡ (ok 0, s1)
      → status_of is_clean results ≡ 0
  unfolding reported
  reported-zero results s s1 (ok path) e = cc
  reported-zero results s s1 (fail m) e = cc

  -- What the status 0 rests on: the configuration, the golden's entries, the state where the verifier has
  -- started, and a result without an error or a difference for each entry.
  pub record Verified (flags : VerifyFlags) (s : S.State) : Type 0 where
    pub cfg : Config T
    pub meta : Meta
    pub entries : List (Entry N)
    pub begun : S.State
    pub loaded : P.load_config (flags.config) ≡ ok cfg
    pub read : P.read_golden (flags.golden) ≡ ok (meta, entries)
    pub started : P.start_verifier cfg s ≡ (ok tt, begun)
    pub results : List (Outcome N)
    pub results_of :
        results
        ≡ (verify unmarshal cfg S (has_source (source_for (cfg.new.datastores))) entries begun).0
    pub names : map (λ r. r.name) results ≡ map (λ e. e.name) entries
    pub passed : All IsPassed results

  after_verify-zero :
      (flags : VerifyFlags) (cfg : Config T) (results : List (Outcome N)) (s s1 : S.State)
      → flags.baseline ≡ []
      → after_verify unmarshal S P flags cfg results s ≡ (ok 0, s1)
      → status_of is_clean results ≡ 0
  unfolding after_verify rebased
  after_verify-zero flags cfg results s s1 none e = reported-zero results s s1 _ (rw none at e)

  module _ (flags : VerifyFlags) (none : flags.baseline ≡ []) (s s1 : S.State) where
    verify_entries-zero :
        (cfg : Config T) (meta : Meta) (entries : List (Entry N))
        → P.load_config (flags.config) ≡ ok cfg
        → P.read_golden (flags.golden) ≡ ok (meta, entries)
        → verify_entries unmarshal S P flags cfg entries s ≡ (ok 0, s1)
        → Verified flags s
    unfolding verify_entries
    verify_entries-zero cfg meta entries l r e =
        let (u, (s2, (begun, rest))) = then_run-ok (P.start_verifier cfg s) _ 0 s1 e in
        let capture = has_source (source_for (cfg.new.datastores)) in
        let results = (verify unmarshal cfg S capture entries s2).0 in
        let consistent = verify-IsConsistent unmarshal cfg S capture entries s2 in
        record {
          cfg = cfg;
          meta = meta;
          entries = entries;
          begun = s2;
          loaded = l;
          read = r;
          started = begun;
          results = results;
          results_of = refl;
          names = consistent.0;
          passed =
              All-IsPassed results (consistent.1)
                (verify-ne_noise unmarshal cfg S capture entries s2)
                (status_of-zero results (after_verify-zero flags cfg results _ s1 none rest));
        }

    verify_golden-zero :
        (cfg : Config T) (g : Result (Meta × List (Entry N)))
        → P.load_config (flags.config) ≡ ok cfg
        → P.read_golden (flags.golden) ≡ g
        → verify_golden unmarshal S P flags cfg g s ≡ (ok 0, s1)
        → Verified flags s
    unfolding verify_golden
    verify_golden-zero cfg (ok (meta, entries)) l r e = verify_entries-zero cfg meta entries l r e
    verify_golden-zero cfg (fail m) l r e = cc

    verify_config-zero :
        (c : Result (Config T))
        → P.load_config (flags.config) ≡ c
        → verify_config unmarshal S P flags c s ≡ (ok 0, s1)
        → Verified flags s
    unfolding verify_config
    verify_config-zero (ok cfg) l e = verify_golden-zero cfg (P.read_golden (flags.golden)) l refl e
    verify_config-zero (fail m) l e = cc

  -- Without a baseline, `mockingbox verify` exits with 0 only if it has loaded the configuration, read the
  -- golden, started the source and got, for every entry of the golden in their order, a result without an
  -- error and without a difference.
  pub cmd_verify-zero :
      (flags : VerifyFlags) (s s' : S.State)
      → flags.baseline ≡ []
      → cmd_verify unmarshal S P flags s ≡ (0, s')
      → Verified flags s
  unfolding cmd_verify
  cmd_verify-zero flags s s' none e =
      elim (Bool-cases (eqs (flags.config) [] || eqs (flags.golden) [])) [
        | inl h ↦ absurd (two-ne_zero s s' (rw h at e))
        | inr h ↦
            let (s1, done) = exit_of-zero _ s' (rw h at e) in
            verify_config-zero flags none s s1 (P.load_config (flags.config)) refl done
      ]
    where
      two-ne_zero : (s s' : S.State) → ◌≡◌ {A = ℕ × S.State} (2, s) (0, s') → ⊥
      two-ne_zero s s' e = cc
