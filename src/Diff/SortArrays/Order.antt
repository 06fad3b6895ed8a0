-- ===== src/Diff/SortArrays/Order.antt =====
-- What `SortArrays` makes of the order of the elements of an array.
use mocking_box.Prelude.{
  ◌≡◌, refl, List, [], ◌∷◌, map, Perm, Option, none, some, if◌then◌else◌, Bool-cases, inl, inr,
  GoString, sort_by, sort_by-perm, sort_by-IsSortedBy, IsSortedBy, map-sort_by-perm,
}
use mocking_box.Diff.Value.{Numerics, Value}
use mocking_box.Diff.Path.{path_matches}
use mocking_box.Diff.SortArrays.{SortRule, sort_key, apply_rules}

-- The rule that `sortArrays` uses at a path.
unfoldable pub first_rule : List SortRule → List GoString → Option SortRule
first_rule [] path = none
first_rule (rule ∷ rules) path =
    if path_matches rule.path path then some rule else first_rule rules path

module _ {N : Numerics} where
  apply_rules-cons :
      (rule : SortRule) (rules : List SortRule) (path : List GoString) (vs : List (Value N))
      → apply_rules (rule ∷ rules) path vs ≡ (
          if path_matches rule.path path
          then sort_by (sort_key rule.by) vs
          else apply_rules rules path vs)
  unfolding apply_rules
  apply_rules-cons rule rules path vs = refl

  abbrev sorted : Option SortRule → List (Value N) → List (Value N)
  sorted none vs = vs
  sorted (some rule) vs = sort_by (sort_key rule.by) vs

  apply_rules_lem :
      (rules : List SortRule) (path : List GoString) (vs : List (Value N))
      → apply_rules rules path vs ≡ sorted (first_rule rules path) vs
  unfolding first_rule
  apply_rules_lem [] path vs = unfold apply_rules in refl
  apply_rules_lem (rule ∷ rules) path vs = elim (Bool-cases (path_matches rule.path path)) [
    | inl e ↦ rw (apply_rules-cons, e)
    | inr e ↦ rw (apply_rules-cons, e) (apply_rules_lem rules path vs)
  ]

  -- What a rule, or no rule, has to make of the elements.
  abbrev pub Ordered : Option SortRule → List (Value N) → List (Value N) → Type 0
  Ordered none vs ws = ws ≡ vs
  Ordered (some rule) vs ws = Perm ws vs × IsSortedBy (sort_key rule.by) ws

  sorted-Ordered : (rule : Option SortRule) (vs : List (Value N)) → Ordered rule vs (sorted rule vs)
  sorted-Ordered none vs = refl
  sorted-Ordered (some rule) vs =
      (sort_by-perm (sort_key rule.by) vs, sort_by-IsSortedBy (sort_key rule.by) vs)

  -- Where a rule matches the path of an array, its elements are permuted into ascending keys of the
  -- first such rule; where none does, they stay as they are.
  pub apply_rules-Ordered :
      (rules : List SortRule) (path : List GoString) (vs : List (Value N))
      → Ordered (first_rule rules path) vs (apply_rules rules path vs)
  apply_rules-Ordered rules path vs = rw apply_rules_lem (sorted-Ordered (first_rule rules path) vs)

  -- Two lists of the same elements, in whatever order, come out with the same keys in the same
  -- order where a rule matches the path.
  pub apply_rules-perm :
      (rule : SortRule) (rules : List SortRule) (path : List GoString) (vs ws : List (Value N))
      → first_rule rules path ≡ some rule
      → Perm vs ws
      → map (sort_key rule.by) (apply_rules rules path vs)
        ≡ map (sort_key rule.by) (apply_rules rules path ws)
  apply_rules-perm rule rules path vs ws e p =
      rw (apply_rules_lem, e, apply_rules_lem, e) (map-sort_by-perm (sort_key rule.by) p)
