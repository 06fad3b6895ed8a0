-- ===== src/Binlog/Windows.antt =====
-- The windows of the MySQL write-set source, as a sequence of actions on it.
use mathlib.Core.List.{append_assoc, append-nil}
use mocking_box.Prelude.{
  ◌≡◌, ◌≢◌, refl, sym, ap, ◌∙◌, ℕ, zero, suc, ◌+◌, ◌*◌, ◌≤◌, ◌<◌, List, [], ◌∷◌, ◌++◌, Option, none,
  some, GoString, arith, Option-cases, inl, inr,
}
use mocking_box.Diff.Value.{Numerics}
use mocking_box.Diff.Writeset.{RowChange}
use mocking_box.Binlog.{
  Event, rows_query, rows, other, Capture, changes_of, pump, stream_died, begin_window,
  close_window, append, Poll, Wait, Waited, wait, turn, or_wait, take_window, window_result,
  quiesced, timed_out, failed, failed, quiesced, timed_out,
}
use mocking_box.Binlog.Logged.{logged, changes_of-logged}

-- What happens to a source: an event of the log, the death of the stream, and the two ends of a window.
pub data Action (N : Numerics) : Type 0 where
  event : ℕ → Event N → Action N
  death : GoString → Action N
  opens : Action N
  closes : Action N

module _ {N : Numerics} where
  unfoldable pub act : Action N → Capture N → List (RowChange N) × Capture N
  unfolding pump stream_died begin_window close_window
  act (event now e) c = ([], pump now e c)
  act (death e) c = ([], stream_died e c)
  act opens c = ([], begin_window c)
  act closes c = close_window c

  -- The changes of all windows that are closed, in their order, and the source at the end.
  unfoldable pub taken : List (Action N) → Capture N → List (RowChange N) × Capture N
  unfolding act
  taken [] c = ([], c)
  taken (a ∷ later) c =
      let (out, c') = act a c in let (rest, c'') = taken later c' in (out ++ rest, c'')

  -- The changes of the events, each with the statement that the log named last before it.
  unfoldable pub arrived : GoString → List (Action N) → List (RowChange N)
  unfolding logged
  arrived query [] = []
  arrived query (event now (rows_query q) ∷ later) = arrived q later
  arrived query (event now (rows e) ∷ later) = logged query e ++ arrived query later
  arrived query (a ∷ later) = arrived query later

  append-changes :
      (now : ℕ) (xs : List (RowChange N)) (c : Capture N)
      → ((append now xs c).changes ≡ c.changes ++ xs)
        × ((append now xs c).last_query ≡ c.last_query)
  unfolding append
  append-changes now [] c = (sym (append-nil (c.changes)), refl)
  append-changes now (x ∷ xs) c = (refl, refl)

  -- Whatever happens between and within the windows, the changes that the windows returned and then
  -- those still pending are the changes that were pending before and then those of the log's events in
  -- their order, each once and with the statement that the log named last: of an event of rows, an
  -- INSERT for each row written, a DELETE for each row deleted and an UPDATE for each two rows after one
  -- another, where a last row without its pair is dropped. Events of other kinds, and those of the
  -- schemas mysql, information_schema, performance_schema and sys, have none.
  pub taken-arrived :
      (later : List (Action N)) (c : Capture N)
      → (taken later c).0 ++ (taken later c).1.changes ≡ c.changes ++ arrived (c.last_query) later
  unfolding taken act arrived pump stream_died begin_window close_window
  taken-arrived [] c = sym (append-nil (c.changes))
  taken-arrived (event now (rows_query q) ∷ later) c =
      taken-arrived later (pump now (rows_query q) c)
  taken-arrived (event now (rows e) ∷ later) c =
      let xs = changes_of (c.last_query) (rows e) in
      let (p, q) = append-changes now xs c in
      taken-arrived later (append now xs c)
      ∙ rw (p, q)
          (append_assoc (c.changes) xs (arrived (c.last_query) later)
            ∙ ap (λ ys. c.changes ++ (ys ++ arrived (c.last_query) later))
                (changes_of-logged (c.last_query) e))
  taken-arrived (event now other ∷ later) c = taken-arrived later c
  taken-arrived (death e ∷ later) c = taken-arrived later (stream_died e c)
  taken-arrived (opens ∷ later) c = taken-arrived later (begin_window c)
  taken-arrived (closes ∷ later) c =
      append_assoc (c.changes) _ _
      ∙ ap (◌++◌ (c.changes)) (taken-arrived later ((close_window c).1))

abbrev sleep : ℕ
sleep = 50 * 1000000

turn-late : (w : Wait) (p : Poll) → w.deadline < p.now → turn w p ≢ none
unfolding turn
turn-late w p h = elim (Option-cases (p.err)) [
  | inl e ↦ rw e (λ q. ground arith)
  | inr (m, e) ↦ rw e (λ q. cc)
]

or_wait-some : (o : Option Waited) (rest : Option Waited) → o ≢ none → or_wait o rest ≢ none
unfolding or_wait
or_wait-some none rest h = absurd (h refl)
or_wait-some (some r) rest h = h

or_wait-rest : (o : Option Waited) (rest : Option Waited) → rest ≢ none → or_wait o rest ≢ none
unfolding or_wait
or_wait-rest none rest h = h
or_wait-rest (some r) rest h = λ e. cc

wait-terminates :
    (fuel : ℕ) (w : Wait) (polls : ℕ → Poll) (i : ℕ)
    → ((j : ℕ) → (polls j).now + sleep ≤ (polls (suc j)).now)
    → w.deadline < (polls i).now + fuel * sleep
    → wait (suc fuel) w polls i ≢ none
unfolding wait
wait-terminates zero w polls i pace h =
    or_wait-some (turn w (polls i)) (wait zero w polls (suc i))
      (turn-late w (polls i) (omega (arith, h)))
wait-terminates (suc fuel) w polls i pace h =
    or_wait-rest (turn w (polls i)) (wait (suc fuel) w polls (suc i))
      (wait-terminates fuel w polls (suc i) pace (omega (arith, h, pace i)))

window_result-some :
    {N : Numerics} (o : Option Waited) (c : Capture N) → o ≢ none → window_result o c ≢ none
unfolding window_result
window_result-some none c h = absurd (h refl)
window_result-some (some (failed e)) c h = λ q. cc
window_result-some (some quiesced) c h = λ q. cc
window_result-some (some timed_out) c h = λ q. cc

-- If every turn of its loop comes at least the 50 ms of its sleep after the one before, `TakeWindow`
-- ends: the turns that pass the deadline at that pace are enough, whatever the database does.
pub take_window-terminates :
    {N : Numerics} (fuel : ℕ) (w : Wait) (polls : ℕ → Poll) (c : Capture N)
    → ((j : ℕ) → (polls j).now + sleep ≤ (polls (suc j)).now)
    → w.deadline < (polls 0).now + fuel * sleep
    → take_window (suc fuel) w polls c ≢ none
unfolding take_window
take_window-terminates fuel w polls c pace h =
    window_result-some (wait (suc fuel) w polls 0) c (wait-terminates fuel w polls 0 pace h)
