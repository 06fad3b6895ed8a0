-- ===== src/Pg/Windows/Ends.antt =====
-- When `TakeWindow` of the PostgreSQL source ends.
use mathlib.Core.List.{append_assoc}
use mocking_box.Prelude.{
  ◌≡◌, ◌≢◌, sym, ap, ℕ, ◌<◌, List, [], ◌∷◌, ◌++◌, Option, none, some, arith, Option-cases, inl, inr,
}
use mocking_box.Diff.Value.{Numerics}
use mocking_box.Pg.Capture.{Codec, Capture}
use mocking_box.Pg.Windows.{
  Step, message, death, poll, lock, Wait, Ended, complete, read_only, timed_out, failed, turn,
  or_later, taken, advance, wait, close_at_lock, after_wait, take_window,
}

module _ {N : Numerics} (codec : Codec N) where
  turn-ne_none : (w : Wait) (now : ℕ) (c : Capture N) → w.deadline < now → turn w now c ≢ none
  unfolding turn
  turn-ne_none w now c h = elim (Option-cases (c.err)) [
    | inr (e, q) ↦ rw q (λ p. cc)
    | inl q ↦ rw q (λ p. ground arith)
  ]

  turn-late :
      (w : Wait) (now : ℕ) (c : Capture N)
      → w.deadline < now
      → (r : Ended) × (turn w now c ≡ some r)
  turn-late w now c h = elim (Option-cases (turn w now c)) [
    | inr found ↦ found
    | inl q ↦ absurd (turn-ne_none w now c h q)
  ]

  or_later-some :
      (o : Option Ended) (c : Capture N) (ss : List Step)
      (later : Option (Ended × Capture N × List Step)) (r : Ended)
      → o ≡ some r
      → or_later o c ss later ≡ some (r, c, ss)
  unfolding or_later
  or_later-some none c ss later r e = cc
  or_later-some (some q) c ss later r e = cc

  -- The loop has ended, and the steps that follow the late turn are still to come.
  abbrev EndsBefore : Option (Ended × Capture N × List Step) → List Step → Type 0
  EndsBefore o b =
      (r : Ended) × ((d : Capture N) × ((pre : List Step) × (o ≡ some (r, d, pre ++ b))))

  or_later-Ends :
      (o : Option Ended) (c : Capture N) (ss pre b : List Step)
      (later : Option (Ended × Capture N × List Step))
      → ss ≡ pre ++ b
      → EndsBefore later b
      → EndsBefore (or_later o c ss later) b
  unfolding or_later
  or_later-Ends none c ss pre b later e h = h
  or_later-Ends (some r) c ss pre b later e h = (r, (c, (pre, ap (λ t. some (r, c, t)) e)))

  wait-Ends :
      (w : Wait) (now : ℕ) (a b : List Step) (c : Capture N)
      → w.deadline < now
      → EndsBefore (wait codec w (a ++ poll now ∷ b) c) b
  unfolding wait advance
  wait-Ends w now [] b c h =
      let (r, e) = turn-late w now c h in
      (r, (c, ([], or_later-some (turn w now c) c b (wait codec w b c) r e)))
  wait-Ends w now (poll t ∷ a) b c h =
      or_later-Ends (turn w t c) c (a ++ poll now ∷ b) (a ++ poll now ∷ []) b _
        (sym (append_assoc a (poll now ∷ []) b)) (wait-Ends w now a b c h)
  wait-Ends w now (message t m ∷ a) b c h = wait-Ends w now a b _ h
  wait-Ends w now (death e ∷ a) b c h = wait-Ends w now a b _ h
  wait-Ends w now (lock ∷ a) b c h = wait-Ends w now a b c h

  close_at_lock-ends :
      (a rest : List Step) (c : Capture N) → taken (close_at_lock codec (a ++ lock ∷ rest) c) ≢ none
  unfolding close_at_lock taken
  close_at_lock-ends [] rest c = λ e. cc
  close_at_lock-ends (poll t ∷ a) rest c = close_at_lock-ends a rest _
  close_at_lock-ends (message t m ∷ a) rest c = close_at_lock-ends a rest _
  close_at_lock-ends (death e ∷ a) rest c = close_at_lock-ends a rest _
  close_at_lock-ends (lock ∷ a) rest c = λ e. cc

  after_wait-ends :
      (r : Ended) (d : Capture N) (a rest : List Step)
      → after_wait codec (some (r, d, a ++ lock ∷ rest)) ≢ none
  unfolding after_wait
  after_wait-ends (failed m) d a rest = λ e. cc
  after_wait-ends complete d a rest = close_at_lock-ends a rest d
  after_wait-ends read_only d a rest = close_at_lock-ends a rest d
  after_wait-ends timed_out d a rest = close_at_lock-ends a rest d

  -- If a turn of its loop comes after the deadline and it gets the lock later, TakeWindow ends, whatever
  -- the stream does before, between and after them.
  pub take_window-ends :
      (w : Wait) (now : ℕ) (before between rest : List Step) (c : Capture N)
      → w.deadline < now
      → take_window codec w (before ++ poll now ∷ (between ++ lock ∷ rest)) c ≢ none
  unfolding take_window
  take_window-ends w now before between rest c h =
      let (r, (d, (pre, e))) = wait-Ends w now before (between ++ lock ∷ rest) c h in
      rw (e, ← append_assoc pre between (lock ∷ rest)) (after_wait-ends r d (pre ++ between) rest)
