-- ===== src/Prelude/Maps.antt =====
-- Go maps with string keys, as association lists with one entry per key that is put.
use mathlib.Core.Path.{◌≡◌}
use mathlib.Core.Bool.{false}
use mathlib.Core.List.{List, [], ◌∷◌}
use mathlib.Core.Option.{Option, none, some}
use native.Mathlib.Omega.{arith}
use mocking_box.Prelude.Tests.{if◌then◌else◌}
use mocking_box.Prelude.Strings.{GoString, eqs, eqs→eq, eqs_refl}

module _ {ℓ} {A : Type ℓ} where
  -- `m[k]`
  unfoldable pub get : GoString → List (GoString × A) → Option A
  unfolding eqs
  get k [] = none
  get k ((j, a) ∷ m) = let rest = get k m in if eqs j k then some a else rest

  -- `m[k] = a`
  unfoldable pub put : GoString → A → List (GoString × A) → List (GoString × A)
  unfolding eqs
  put k a [] = (k, a) ∷ []
  put k a ((j, b) ∷ m) = let rest = put k a m in if eqs j k then (k, a) ∷ m else (j, b) ∷ rest

  pub get-put : (k : GoString) (a : A) (m : List (GoString × A)) → get k (put k a m) ≡ some a
  unfolding get put
  get-put k a [] = ground (arith, eqs_refl k)
  get-put k a ((j, b) ∷ m) = ground (arith, eqs_refl k, get-put k a m)

  pub get-put_other :
      (k l : GoString) (a : A) (m : List (GoString × A))
      → eqs l k ≡ false
      → get k (put l a m) ≡ get k m
  unfolding get put
  get-put_other k l a [] h = ground arith
  get-put_other k l a ((j, b) ∷ m) h = ground (arith, eqs→eq j l, get-put_other k l a m)
