-- ===== src/Seed/Sums.antt =====
-- What a `RunPairs` of internal/seed/seed.go that succeeds has copied.
use mathlib.Core.List.{append_assoc, append-nil}
use mocking_box.Prelude.{
  ◌+◌, false, List, [], ◌∷◌, ◌++◌, Option, none, some, GoString, eqs, ◌≡◌, ◌≢◌, refl, inl, inr,
  Bool-cases, ◌∙◌, sym, subst, arith, ℕ,
}
use mocking_box.Config.{Datastore, Stack}
use mocking_box.Config.Choice.{datastore_by_name}
use mocking_box.Seed.Tables.{Stats}
use mocking_box.Seed.Pairs.{
  Copied, copied, failed, panicked, Seeded, seeded, stopped, Copies, added, zero_stats, copy_pair,
  after_pair, seed_pair, seed_pairs, seed_all, run_pairs,
}

-- The sums of several statistics.
abbrev pub all_schemas : List Stats → List GoString
all_schemas [] = []
all_schemas (st ∷ sts) = st.schemas ++ all_schemas sts

abbrev pub all_tables : List Stats → ℕ
all_tables [] = 0
all_tables (st ∷ sts) = st.tables + all_tables sts

abbrev pub all_rows : List Stats → ℕ
all_rows [] = 0
all_rows (st ∷ sts) = st.rows + all_rows sts

-- The first statistics with the sums of the others.
abbrev IsSum : Stats → Stats → List Stats → Type 0
IsSum t first sts =
    (t.schemas ≡ first.schemas ++ all_schemas sts)
    × ((t.tables ≡ first.tables + all_tables sts) × (t.rows ≡ first.rows + all_rows sts))

module _ (C : Copies) (golden_name : GoString) where
  -- From a state to another, each of the new datastores is copied from the old one of its name, which
  -- has a host, with these statistics, one after another.
  pub data CopiedBy (old : Stack) : List Datastore → C.State → List Stats → C.State → Type 0 where
    none_left : {s : C.State} → CopiedBy old [] s [] s
    one :
        {od nd : Datastore} {nds : List Datastore} {st : Stats} {sts : List Stats}
        {s s1 s' : C.State}
        → datastore_by_name (nd.name) (old.datastores) ≡ some od
        → eqs (od.host) [] ≡ false
        → copy_pair C golden_name od nd s ≡ (copied st, s1)
        → CopiedBy old nds s1 sts s'
        → CopiedBy old (nd ∷ nds) s (st ∷ sts) s'

  after_pair-ok :
      (nd : Datastore) (total t : Stats) (rest : Stats → C.State → Seeded × C.State)
      (r : Copied × C.State) (s' : C.State)
      → after_pair C nd total rest r ≡ (seeded t, s')
      → (st : Stats) × ((s1 : C.State) × ((r ≡ (copied st, s1))
            × (rest (added total st) s1 ≡ (seeded t, s'))))
  unfolding after_pair
  after_pair-ok nd total t rest (copied st, s) s' e = (st, (s, (refl, e)))
  after_pair-ok nd total t rest (failed m, s) s' e = cc
  after_pair-ok nd total t rest (panicked, s) s' e = cc

  seed_pair-ok :
      (nd : Datastore) (o : Option Datastore) (total t : Stats)
      (rest : Stats → C.State → Seeded × C.State) (s s' : C.State)
      → seed_pair C golden_name nd o total rest s ≡ (seeded t, s')
      → (od : Datastore) × ((o ≡ some od)
          × ((eqs (od.host) [] ≡ false)
              × ((st : Stats) × ((s1 : C.State) × ((copy_pair C golden_name od nd s
                        ≡ (copied st, s1))
                      × (rest (added total st) s1 ≡ (seeded t, s')))))))
  unfolding seed_pair
  seed_pair-ok nd none total t rest s s' e = cc
  seed_pair-ok nd (some od) total t rest s s' e = elim (Bool-cases (eqs (od.host) [])) [
    | inl h ↦ absurd (stopped-ne _ _ _ _ _ (rw h at e))
    | inr h ↦ (
      od,
      (refl, (h, after_pair-ok nd total t rest (copy_pair C golden_name od nd s) s' (rw h at e))),
    )
  ]
    where
      stopped-ne :
          (u v : Stats) (m : GoString) (s s' : C.State)
          → ◌≡◌ {A = Seeded × C.State} (stopped u m, s) (seeded v, s')
          → ⊥
      stopped-ne u v m s s' e = cc

  added-IsSum :
      (t total st : Stats) (sts : List Stats)
      → IsSum t (added total st) sts
      → IsSum t total (st ∷ sts)
  unfolding added
  added-IsSum t total st sts (a, (b, c)) = (
    a ∙ append_assoc (total.schemas) (st.schemas) (all_schemas sts),
    (omega (arith, b), omega (arith, c)),
  )

  seed_pairs-ok :
      (old : Stack) (nds : List Datastore) (total t : Stats) (s s' : C.State)
      → seed_pairs C golden_name old nds total s ≡ (seeded t, s')
      → (sts : List Stats) × (CopiedBy old nds s sts s' × IsSum t total sts)
  unfolding seed_pairs
  seed_pairs-ok old [] total t s s' e =
      let p : s ≡ s' = cc in
      let q : total ≡ t = cc in
      (
        [],
        (
          subst (λ u. CopiedBy old [] s [] u) p none_left,
          subst (λ u. IsSum u total []) q
              (sym (append-nil (total.schemas)), (omega arith, omega arith)),
        ),
      )
  seed_pairs-ok old (nd ∷ nds) total t s s' e =
      let (od, (o, (h, (st, (s1, (c, r)))))) =
        seed_pair-ok nd (datastore_by_name (nd.name) (old.datastores)) total t
          (seed_pairs C golden_name old nds) s s' e in
      let (sts, (chain, sum)) = seed_pairs-ok old nds (added total st) t s1 s' r in
      (st ∷ sts, (one o h c chain, added-IsSum t total st sts sum))

  seed_all-ok :
      (old : Stack) (nds : List Datastore) (t : Stats) (s s' : C.State)
      → seed_all C golden_name old nds s ≡ (seeded t, s')
      → (nds ≢ []) × ((sts : List Stats) × (CopiedBy old nds s sts s' × IsSum t zero_stats sts))
  unfolding seed_all
  seed_all-ok old [] t s s' e = cc
  seed_all-ok old (nd ∷ nds) t s s' e =
      ((λ h. cc), seed_pairs-ok old (nd ∷ nds) zero_stats t s s' e)

  -- A seeding that succeeds copied each of the new datastores, of which there is one at least, one after
  -- another from the old one of its name, which has a host; it gives the schemas of these copies one
  -- after another and the sums of their tables and of their rows.
  pub run_pairs-ok :
      (old new : Stack) (t : Stats) (s s' : C.State)
      → run_pairs C golden_name old new s ≡ (seeded t, s')
      → (new.datastores ≢ [])
        × ((sts : List Stats) × (CopiedBy old (new.datastores) s sts s'
              × ((t.schemas ≡ all_schemas sts)
                  × ((t.tables ≡ all_tables sts) × (t.rows ≡ all_rows sts)))))
  unfolding run_pairs
  run_pairs-ok old new t s s' e =
      let (ne, (sts, (chain, (a, (b, c))))) = seed_all-ok old (new.datastores) t s s' e in
      (ne, (sts, (chain, (a, (omega (arith, b), omega (arith, c))))))
