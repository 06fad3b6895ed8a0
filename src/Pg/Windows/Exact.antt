-- ===== src/Pg/Windows/Exact.antt =====
-- What a window of the PostgreSQL source gives: the steps that `TakeWindow` reads.
use mathlib.Core.List.{append_assoc, append-nil}
use mocking_box.Prelude.{◌≡◌, refl, sym, ap, ◌∙◌, ℕ, List, [], ◌∷◌, ◌++◌, Option, none, some, ok}
use mocking_box.Diff.Value.{Numerics}
use mocking_box.Diff.Writeset.{RowChange}
use mocking_box.Pg.Capture.{
  Codec, relation, inserted, updated, deleted, committed, ignored, Capture, recorded, handle_wal,
  set_err, begin_window, close_window,
}
use mocking_box.Pg.Windows.{
  Step, message, death, poll, lock, Wait, Ended, complete, read_only, timed_out, failed, turn,
  or_later, taken, advance, advance_all, wait, close_at_lock, after_wait, take_window, changes_of,
  arrived,
}

module _ {N : Numerics} (codec : Codec N) where
  recorded-changes :
      (now : ℕ) (chs : List (RowChange N)) (c : Capture N)
      → ((recorded now chs c).changes ≡ c.changes ++ chs)
        × ((recorded now chs c).relations ≡ c.relations)
  unfolding recorded
  recorded-changes now [] c = (sym (append-nil (c.changes)), refl)
  recorded-changes now (ch ∷ chs) c = (refl, refl)

  -- What a source holds after a recorded change and the steps that follow.
  recorded-later :
      (now : ℕ) (chs : List (RowChange N)) (ss : List Step) (c : Capture N)
      → (advance_all codec ss (recorded now chs c)).changes
        ≡ (recorded now chs c).changes ++ arrived codec ((recorded now chs c).relations) ss
      → (advance_all codec ss (recorded now chs c)).changes
        ≡ c.changes ++ (chs ++ arrived codec (c.relations) ss)
  recorded-later now chs ss c later =
      let (p, q) = recorded-changes now chs c in
      later ∙ rw (p, q) (append_assoc (c.changes) chs (arrived codec (c.relations) ss))

  -- What a source holds after the steps.
  advance_all-changes :
      (ss : List Step) (c : Capture N)
      → (advance_all codec ss c).changes ≡ c.changes ++ arrived codec (c.relations) ss
  unfolding advance_all advance arrived changes_of handle_wal set_err
  advance_all-changes [] c = sym (append-nil (c.changes))
  advance_all-changes (message now (relation id r) ∷ ss) c = advance_all-changes ss _
  advance_all-changes (message now (inserted id new) ∷ ss) c =
      recorded-later now _ ss c (advance_all-changes ss _)
  advance_all-changes (message now (updated id old new) ∷ ss) c =
      recorded-later now _ ss c (advance_all-changes ss _)
  advance_all-changes (message now (deleted id old) ∷ ss) c =
      recorded-later now _ ss c (advance_all-changes ss _)
  advance_all-changes (message now (committed lsn) ∷ ss) c = advance_all-changes ss _
  advance_all-changes (message now ignored ∷ ss) c = advance_all-changes ss _
  advance_all-changes (death e ∷ ss) c = advance_all-changes ss _
  advance_all-changes (poll now ∷ ss) c = advance_all-changes ss c
  advance_all-changes (lock ∷ ss) c = advance_all-changes ss c

  -- The source came to a state by some of the steps, and these are left.
  abbrev Read : Capture N → List Step → Capture N → List Step → Type 0
  Read c ss c' rest = (read : List Step) × ((ss ≡ read ++ rest) × (c' ≡ advance_all codec read c))

  Read-step :
      (s : Step) (ss rest : List Step) (c c' : Capture N)
      → Read (advance codec s c) ss c' rest
      → Read c (s ∷ ss) c' rest
  unfolding advance_all
  Read-step s ss rest c c' (read, (e, same)) = (s ∷ read, (ap (◌∷◌ s) e, same))

  or_later-Read :
      (o : Option Ended) (ss rest : List Step) (c c' : Capture N) (r : Ended)
      (later : Option (Ended × Capture N × List Step))
      → or_later o c ss later ≡ some (r, c', rest)
      → (later ≡ some (r, c', rest) → Read c ss c' rest)
      → Read c ss c' rest
  unfolding or_later advance_all
  or_later-Read none ss rest c c' r later e h = h e
  or_later-Read (some q) ss rest c c' r later e h = ([], (cc, cc))

  wait-Read :
      (w : Wait) (ss rest : List Step) (c c' : Capture N) (r : Ended)
      → wait codec w ss c ≡ some (r, c', rest)
      → Read c ss c' rest
  unfolding wait advance advance_all or_later
  wait-Read w [] rest c c' r e = cc
  wait-Read w (message now m ∷ ss) rest c c' r e =
      Read-step (message now m) ss rest c c' (wait-Read w ss rest _ c' r e)
  wait-Read w (death d ∷ ss) rest c c' r e =
      Read-step (death d) ss rest c c' (wait-Read w ss rest _ c' r e)
  wait-Read w (lock ∷ ss) rest c c' r e = Read-step lock ss rest c c' (wait-Read w ss rest _ c' r e)
  wait-Read w (poll now ∷ ss) rest c c' r e = Read-step (poll now) ss rest c c' (
      or_later-Read (turn w now c) ss rest c c' r (wait codec w ss c) e
        (wait-Read w ss rest c c' r))

  close_at_lock-Read :
      (ss rest : List Step) (c c' : Capture N) (chs : List (RowChange N))
      → close_at_lock codec ss c ≡ some (chs, c', rest)
      → (d : Capture N) × (Read c ss d rest × ((chs ≡ d.changes) × (c'.changes ≡ [])))
  unfolding close_at_lock close_window advance advance_all
  close_at_lock-Read [] rest c c' chs e = cc
  close_at_lock-Read (lock ∷ ss) rest c c' chs e =
      let same : ◌≡◌ {A = Option (List (RowChange N) × Capture N × List Step)}
          (some (c.changes, record c { changes = [] }, ss)) (some (chs, c', rest)) =
        e in
      (c, ((lock ∷ [], (ap (◌∷◌ lock) cc, refl)), (cc, cc)))
  close_at_lock-Read (poll now ∷ ss) rest c c' chs e =
      let (d, (read, same)) = close_at_lock-Read ss rest _ c' chs e in
      (d, (Read-step (poll now) ss rest c d read, same))
  close_at_lock-Read (message now m ∷ ss) rest c c' chs e =
      let (d, (read, same)) = close_at_lock-Read ss rest _ c' chs e in
      (d, (Read-step (message now m) ss rest c d read, same))
  close_at_lock-Read (death m ∷ ss) rest c c' chs e =
      let (d, (read, same)) = close_at_lock-Read ss rest _ c' chs e in
      (d, (Read-step (death m) ss rest c d read, same))

  taken-ok :
      (o : Option (List (RowChange N) × Capture N × List Step)) (chs : List (RowChange N))
      (c' : Capture N) (rest : List Step)
      → taken o ≡ some (ok chs, c', rest)
      → o ≡ some (chs, c', rest)
  unfolding taken
  taken-ok none chs c' rest e = cc
  taken-ok (some (chs', c, ss)) chs c' rest e = cc

  after_wait-ok :
      (o : Option (Ended × Capture N × List Step)) (chs : List (RowChange N)) (c' : Capture N)
      (rest : List Step)
      → after_wait codec o ≡ some (ok chs, c', rest)
      → (r : Ended) × ((d : Capture N) × ((mid : List Step) × ((o ≡ some (r, d, mid))
              × (close_at_lock codec mid d ≡ some (chs, c', rest)))))
  unfolding after_wait
  after_wait-ok none chs c' rest e = cc
  after_wait-ok (some (failed m, d, mid)) chs c' rest e = cc
  after_wait-ok (some (complete, d, mid)) chs c' rest e =
      (complete, (d, (mid, (refl, taken-ok (close_at_lock codec mid d) chs c' rest e))))
  after_wait-ok (some (read_only, d, mid)) chs c' rest e =
      (read_only, (d, (mid, (refl, taken-ok (close_at_lock codec mid d) chs c' rest e))))
  after_wait-ok (some (timed_out, d, mid)) chs c' rest e =
      (timed_out, (d, (mid, (refl, taken-ok (close_at_lock codec mid d) chs c' rest e))))

  advance_all-append :
      (ss ts : List Step) (c : Capture N)
      → advance_all codec (ss ++ ts) c ≡ advance_all codec ts (advance_all codec ss c)
  unfolding advance_all
  advance_all-append [] ts c = refl
  advance_all-append (s ∷ ss) ts c = advance_all-append ss ts (advance codec s c)

  Read-trans :
      (ss mid rest : List Step) (c d f : Capture N)
      → Read c ss d mid
      → Read d mid f rest
      → Read c ss f rest
  Read-trans ss mid rest c d f (r1, (e1, s1)) (r2, (e2, s2)) = (
    r1 ++ r2,
    (
      (e1 ∙ (ap (◌++◌ r1) e2 ∙ sym (append_assoc r1 r2 rest))),
      (s2 ∙ (rw s1 (sym (advance_all-append r1 r2 c)))),
    ),
  )

  take_window-Read :
      (w : Wait) (steps rest : List Step) (c c' : Capture N) (chs : List (RowChange N))
      → take_window codec w steps c ≡ some (ok chs, c', rest)
      → (d : Capture N) × (Read c steps d rest × ((chs ≡ d.changes) × (c'.changes ≡ [])))
  unfolding take_window
  take_window-Read w steps rest c c' chs e =
      let (r, (d, (mid, (waited, closed)))) = after_wait-ok (wait codec w steps c) chs c' rest e in
      let (f, (read, same)) = close_at_lock-Read mid rest d c' chs closed in
      (f, (Read-trans steps mid rest c d f (wait-Read w steps mid c d r waited) read, same))

  -- A window that gives a write-set gives the rows that the stream described between the opening of the
  -- window and its last lock, each once and in order, whatever the source held before the window, and
  -- leaves none behind.
  pub take_window-arrived :
      (w : Wait) (before steps rest : List Step) (c c' : Capture N) (chs : List (RowChange N))
      → take_window codec w steps (advance_all codec before (begin_window c))
        ≡ some (ok chs, c', rest)
      → (read : List Step) × ((steps ≡ read ++ rest)
          × ((chs ≡ arrived codec (c.relations) (before ++ read)) × (c'.changes ≡ [])))
  unfolding begin_window
  take_window-arrived w before steps rest c c' chs e =
      let (d, ((read, (left, same)), (held, empty))) =
        take_window-Read w steps rest (advance_all codec before (begin_window c)) c' chs e in
      (
        read,
        (
          left,
          (
            (held
                ∙ (rw (same, ← advance_all-append before read (begin_window c))
                    (advance_all-changes (before ++ read) (begin_window c)))),
            empty,
          ),
        ),
      )
