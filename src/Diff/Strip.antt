-- ===== src/Diff/Strip.antt =====
-- `StripNoise` of internal/diff/diff.go: the copy of a value without the keys on noise paths.
pub mod Reading
use mocking_box.Prelude.{ℕ, ◌+◌, Bool, List, [], ◌∷◌, ◌++◌, if◌then◌else◌, GoString, any, itoa}
use mocking_box.Diff.Value.{Numerics, Value, array, object, Items, nil, cons, Fields, end, field}
use mocking_box.Diff.Path.{path_matches}

-- `for _, p := range patterns { if PathMatches(p, child) { continue keys } }`
unfoldable pub is_noise : List GoString → List GoString → Bool
unfolding path_matches
is_noise patterns child = any (λ p. path_matches p child) patterns

module _ {N : Numerics} (patterns : List GoString) where
  -- `stripNoise`; the index of an element is a path segment
  mutual
    pub strip_value : Value N → List GoString → Value N
    strip_value (object fs) path = object (strip_fields fs path)
    strip_value (array xs) path = array (strip_items xs path 0)
    strip_value v path = v

    pub strip_items : Items N → List GoString → ℕ → Items N
    strip_items nil path i = nil
    strip_items (cons v vs) path i =
        cons (strip_value v (path ++ itoa i ∷ [])) (strip_items vs path (i + 1))

    pub strip_fields : Fields N → List GoString → Fields N
    strip_fields end path = end
    strip_fields (field k v fs) path =
        let child = path ++ k ∷ [] in
        let kept = field k (strip_value v child) (strip_fields fs path) in
        let dropped = strip_fields fs path in if is_noise patterns child then dropped else kept

  -- `StripNoise`
  unfoldable pub strip_noise : Value N → Value N
  unfolding strip_value is_noise
  strip_noise v = strip_value v []
