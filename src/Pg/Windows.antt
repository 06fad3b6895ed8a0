-- ===== src/Pg/Windows.antt =====
-- `TakeWindow` of internal/pg/capture.go, over the steps that the pump and its own loop take in turn.
pub mod Exact
pub mod Ends
use mathlib.Core.List.{append_assoc, append-nil}
use mocking_box.Prelude.{
  ◌≡◌, ◌≢◌, refl, sym, ap, ◌∙◌, ℕ, ◌-◌, ◌<◌, Bool, true, false, ◌&&◌, List, [], ◌∷◌, ◌++◌, Option,
  none, some, ltb, leb, if◌then◌else◌, Result, ok, fail, GoString, arith, inl, inr, Option-cases,
}
use mocking_box.Diff.Value.{Numerics}
use mocking_box.Diff.Writeset.{RowChange, insert_op, update_op, delete_op}
use mocking_box.Pg.Capture.{
  Codec, Message, relation, inserted, updated, deleted, committed, ignored, Relation, Capture,
  relation_at, row_change, recorded, handle_wal, set_err, begin_window, close_window,
}

-- A message of the stream and its death, at the pump; a turn of the loop of `TakeWindow`, and the lock that
-- it takes at its end.
pub data Step : Type 0 where
  message : ℕ → Message → Step
  death : GoString → Step
  poll : ℕ → Step
  lock : Step

pub record Wait : Type 0 where
  pub quiet : ℕ
  pub opened : ℕ
  pub deadline : ℕ

pub data Ended : Type 0 where
  complete read_only timed_out : Ended
  failed : GoString → Ended

module _ {N : Numerics} where
  is_empty : List (RowChange N) → Bool
  is_empty [] = true
  is_empty (ch ∷ chs) = false

  -- A turn of the loop; none where it sleeps.
  unfoldable pub turn : Wait → ℕ → Capture N → Option Ended
  unfolding is_empty
  turn w now c = go (c.err)
    where
      go : Option GoString → Option Ended
      go (some e) = some (failed e)
      go none =
          if ltb (c.window_start) (c.last_commit)
          then some complete
          else if is_empty (c.changes) && leb (w.quiet) (now - w.opened)
          then some read_only
          else if ltb (w.deadline) now
          then some timed_out
          else none

  -- The turn ends the loop at this state, or it goes on.
  unfoldable pub or_later :
      Option Ended
      → Capture N
      → List Step
      → Option (Ended × Capture N × List Step)
      → Option (Ended × Capture N × List Step)
  or_later none c steps later = later
  or_later (some r) c steps later = some (r, c, steps)

  -- The changes as the result of `TakeWindow`
  unfoldable pub taken :
      Option (List (RowChange N) × Capture N × List Step)
      → Option (Result (List (RowChange N)) × Capture N × List Step)
  taken none = none
  taken (some (changes, c, steps)) = some (ok changes, c, steps)

module _ {N : Numerics} (codec : Codec N) where
  -- What a step does to the source
  unfoldable pub advance : Step → Capture N → Capture N
  unfolding handle_wal set_err
  advance (message now m) c = handle_wal codec now m c
  advance (death e) c = set_err e c
  advance (poll now) c = c
  advance lock c = c

  unfoldable pub advance_all : List Step → Capture N → Capture N
  unfolding advance
  advance_all [] c = c
  advance_all (s ∷ ss) c = advance_all ss (advance s c)

  -- The loop of `TakeWindow`; none where the steps end before it does.
  unfoldable pub wait : Wait → List Step → Capture N → Option (Ended × Capture N × List Step)
  unfolding turn or_later advance
  wait w [] c = none
  wait w (poll now ∷ ss) c = let later = wait w ss c in or_later (turn w now c) c ss later
  wait w (message now m ∷ ss) c = wait w ss (advance (message now m) c)
  wait w (death e ∷ ss) c = wait w ss (advance (death e) c)
  wait w (lock ∷ ss) c = wait w ss (advance lock c)

  -- The end of `TakeWindow`, once it holds the lock.
  unfoldable pub close_at_lock :
      List Step → Capture N → Option (List (RowChange N) × Capture N × List Step)
  unfolding close_window advance
  close_at_lock [] c = none
  close_at_lock (lock ∷ ss) c = let (changes, c') = close_window c in some (changes, c', ss)
  close_at_lock (poll now ∷ ss) c = close_at_lock ss (advance (poll now) c)
  close_at_lock (message now m ∷ ss) c = close_at_lock ss (advance (message now m) c)
  close_at_lock (death e ∷ ss) c = close_at_lock ss (advance (death e) c)

  unfoldable pub after_wait :
      Option (Ended × Capture N × List Step)
      → Option (Result (List (RowChange N)) × Capture N × List Step)
  unfolding close_at_lock taken
  after_wait none = none
  after_wait (some (failed e, c, ss)) = some (fail e, c, ss)
  after_wait (some (complete, c, ss)) = taken (close_at_lock ss c)
  after_wait (some (read_only, c, ss)) = taken (close_at_lock ss c)
  after_wait (some (timed_out, c, ss)) = taken (close_at_lock ss c)

  -- `TakeWindow`, with the steps that follow it
  unfoldable pub take_window :
      Wait → List Step → Capture N → Option (Result (List (RowChange N)) × Capture N × List Step)
  unfolding wait after_wait
  take_window w ss c = after_wait (wait w ss c)

  -- The changes of a message, by the relations that were described before it.
  unfoldable pub changes_of : List (ℕ × Relation) → Message → List (RowChange N)
  unfolding relation_at row_change
  changes_of rels (inserted id new) =
      row_change codec (relation_at id rels) insert_op none (some new)
  changes_of rels (updated id old new) =
      row_change codec (relation_at id rels) update_op old (some new)
  changes_of rels (deleted id old) = row_change codec (relation_at id rels) delete_op old none
  changes_of rels m = []

  -- The changes of the messages among the steps, each once and in their order.
  unfoldable pub arrived : List (ℕ × Relation) → List Step → List (RowChange N)
  unfolding changes_of
  arrived rels [] = []
  arrived rels (message now (relation id r) ∷ ss) = arrived ((id, r) ∷ rels) ss
  arrived rels (message now m ∷ ss) = changes_of rels m ++ arrived rels ss
  arrived rels (s ∷ ss) = arrived rels ss
