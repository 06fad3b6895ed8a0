-- ===== src/Diff/SortArrays.antt =====
-- `SortArrays` of internal/diff/diff.go: arrays under a sort rule are put in a canonical order.
pub mod Order
use mocking_box.Prelude.{
  ℕ, ◌+◌, Bool, true, false, ◌||◌, List, [], ◌∷◌, ◌++◌, Option, none, some, if◌then◌else◌, GoString,
  str, eqs, itoa, sort_by,
}
use mocking_box.Diff.Value.{
  Numerics, Value, null, array, object, Items, nil, cons, Fields, end, field, lookup, items,
}
use mocking_box.Diff.Canonical.{canonical}
use mocking_box.Diff.Path.{path_matches}

pub record SortRule : Type 0 where
  pub path : GoString
  pub by : GoString

module _ {N : Numerics} where
  abbrev pub of_list : List (Value N) → Items N
  of_list [] = nil
  of_list (v ∷ vs) = cons v (of_list vs)

  or_null : Option (Value N) → Value N
  or_null none = null
  or_null (some v) = v

  member_key : GoString → Value N → GoString
  unfolding or_null canonical lookup
  member_key by (object fs) = canonical (or_null (lookup by fs))
  member_key by e = canonical e

  -- The closure `sortKey` of `sortArrays`.
  unfoldable pub sort_key : GoString → Value N → GoString
  unfolding member_key canonical eqs
  sort_key by e =
      if eqs by (str "") || eqs by (str "$canonical") then canonical e else member_key by e

  -- The first rule whose path matches sorts the elements.
  unfoldable pub apply_rules : List SortRule → List GoString → List (Value N) → List (Value N)
  unfolding sort_key sort_by path_matches
  apply_rules [] path vs = vs
  apply_rules (rule ∷ rules) path vs =
      if path_matches rule.path path
      then sort_by (sort_key rule.by) vs
      else apply_rules rules path vs

module _ {N : Numerics} (rules : List SortRule) where
  -- `sortArrays`
  unfoldable mutual
    unfolding apply_rules

    pub sort_value : Value N → List GoString → Value N
    sort_value (object fs) path = object (sort_fields fs path)
    sort_value (array xs) path =
        array (of_list (apply_rules rules path (items (sort_items xs path 0))))
    sort_value v path = v

    pub sort_items : Items N → List GoString → ℕ → Items N
    sort_items nil path i = nil
    sort_items (cons v vs) path i =
        cons (sort_value v (path ++ itoa i ∷ [])) (sort_items vs path (i + 1))

    pub sort_fields : Fields N → List GoString → Fields N
    sort_fields end path = end
    sort_fields (field k v fs) path = field k (sort_value v (path ++ k ∷ [])) (sort_fields fs path)

  -- `SortArrays`
  unfoldable pub sort_arrays : Value N → Value N
  unfolding sort_value
  sort_arrays v = sort_value v []
