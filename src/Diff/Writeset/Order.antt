-- ===== src/Diff/Writeset/Order.antt =====
-- The order of the row changes and of a write-set, internal/diff/diff.go.
use mathlib.Core.List.Perm
use mocking_box.Prelude.{◌≡◌, List, map, Perm, GoString, map-sort_by-perm}
use mocking_box.Diff.Value.{Numerics}
use mocking_box.Diff.Writeset.{RowChange, entry_of, entry_text, normalize_writeset}

module _ {N : Numerics} (noise ignored : List GoString) where
  -- Two orders of the same row changes have write-sets whose entries have the same canonical texts,
  -- in the same order.
  pub normalize_writeset-perm :
      {cs ds : List (RowChange N)}
      → Perm cs ds
      → map entry_text (normalize_writeset cs noise ignored)
        ≡ map entry_text (normalize_writeset ds noise ignored)
  unfolding normalize_writeset
  normalize_writeset-perm p =
      map-sort_by-perm entry_text (Perm.filter_map (entry_of noise ignored) p)
