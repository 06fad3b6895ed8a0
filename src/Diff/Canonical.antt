-- ===== src/Diff/Canonical.antt =====
-- `canonical` and `equal` of internal/diff/diff.go.
use mocking_box.Prelude.{
  ◌≡◌, Bool, true, [], ◌∷◌, ◌++◌, ◌==◌, ◌||◌, if◌then◌else◌, GoString, eqs, eqs_refl,
}
use mocking_box.Diff.Value.{Numerics, Encoded, text, failed, Value, norm_value}
use mocking_box.Diff.Json.{marshal}

-- `strconv.Quote` on a message of printable bytes
go_escape : GoString → GoString
go_escape [] = []
go_escape (c ∷ s) =
    let rest = go_escape s in if c == b'"' || c == 0x5c then 0x5c ∷ c ∷ rest else c ∷ rest

go_quote : GoString → GoString
unfolding go_escape
go_quote s = b'"' ∷ go_escape s ++ (b'"' ∷ [])

unfoldable pub or_error : Encoded → GoString
unfolding go_quote
or_error (text t) = t
or_error (failed message) = b'!' ∷ go_quote message

module _ {N : Numerics} where
  unfoldable pub canonical : Value N → GoString
  unfolding or_error marshal norm_value
  canonical v = or_error (marshal (norm_value v))

  -- `equal`
  unfoldable pub equal : Value N → Value N → Bool
  unfolding eqs
  equal a b = eqs (canonical a) (canonical b)

  pub equal_refl : (v : Value N) → equal v v ≡ true
  unfolding equal
  equal_refl v = eqs_refl (canonical v)
