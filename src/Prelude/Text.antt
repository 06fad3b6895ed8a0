-- ===== src/Prelude/Text.antt =====
-- More of Go's `strings`: replacing a byte, cutting at a marker, repeating.
use Prim.Native.Nat.{ℕ, zero, suc}
use mathlib.Core.List.{[], ◌∷◌, ◌++◌}
use mathlib.Core.Option.{Option, none, some}
use mocking_box.Prelude.Tests.{◌==◌, if◌then◌else◌}
use mocking_box.Prelude.Lists.{length, drop}
use mocking_box.Prelude.Strings.{GoString, has_prefix}

-- `strings.ReplaceAll(s, b, t)` for one byte `b`
unfoldable pub replace_byte : ℕ → GoString → GoString → GoString
replace_byte b t [] = []
replace_byte b t (c ∷ s) = let rest = replace_byte b t s in if c == b then t ++ rest else c ∷ rest

-- What follows the first `marker`: `s[strings.Index(s, marker)+len(marker):]`
unfoldable pub after_first : GoString → GoString → Option GoString
unfolding has_prefix
after_first marker [] = if has_prefix [] marker then some [] else none
after_first marker (c ∷ s) =
    let rest = after_first marker s in
    if has_prefix (c ∷ s) marker then some (drop (length marker) (c ∷ s)) else rest

cons_some : ℕ → Option GoString → Option GoString
cons_some c none = none
cons_some c (some s) = some (c ∷ s)

-- What stands before the first byte `b`: `s[:strings.Index(s, b)]`
unfoldable pub before_byte : ℕ → GoString → Option GoString
unfolding cons_some
before_byte b [] = none
before_byte b (c ∷ s) = let rest = before_byte b s in if c == b then some [] else cons_some c rest

-- `strings.Repeat(s, n)`
unfoldable pub repeat : GoString → ℕ → GoString
repeat s zero = []
repeat s (suc n) = s ++ repeat s n
