-- ===== src/Diff/Keys.antt =====
-- Sets of keys, `map[string]bool`, listed in ascending order.
use mocking_box.Prelude.{
  List, [], ◌∷◌, if◌then◌else◌, Bool-cases, inl, inr, GoString, eqs, eqs→eq, sort_strings, All,
  subst, sort_by-All, of_sort_by-All,
}

-- The set of keys `map[string]bool`, then its keys in ascending order.
add_key : GoString → List GoString → List GoString
add_key k [] = k ∷ []
add_key k (j ∷ ks) = if eqs j k then j ∷ ks else j ∷ add_key k ks

pub add_keys : List GoString → List GoString → List GoString
add_keys [] set = set
add_keys (k ∷ ks) set = add_keys ks (add_key k set)

-- The keys of two maps, each once.
unfoldable pub union : List GoString → List GoString → List GoString
unfolding add_key add_keys eqs
union a b = add_keys b (add_keys a [])

module _ {κ} (P : GoString → Type κ) where
  add_key-All : (k : GoString) (set : List GoString) → P k → All P set → All P (add_key k set)
  unfolding add_key
  add_key-All k [] p h = (p, tt)
  add_key-All k (j ∷ set) p (q, h) = elim (Bool-cases (eqs j k)) [
    | inl e ↦ rw e (q, h)
    | inr e ↦ rw e (q, add_key-All k set p h)
  ]

  of_add_key-All : (k : GoString) (set : List GoString) → All P (add_key k set) → P k × All P set
  unfolding add_key
  of_add_key-All k [] h = h
  of_add_key-All k (j ∷ set) h = elim (Bool-cases (eqs j k)) [
    | inl e ↦ let g = rw e at h in (subst P (eqs→eq j k e) g.0, g)
    | inr e ↦ let (q, g) = rw e at h in let (p, gs) = of_add_key-All k set g in (p, (q, gs))
  ]

  add_keys-All : (ks set : List GoString) → All P ks → All P set → All P (add_keys ks set)
  unfolding add_keys
  add_keys-All [] set h g = g
  add_keys-All (k ∷ ks) set (p, h) g = add_keys-All ks (add_key k set) h (add_key-All k set p g)

  of_add_keys-All : (ks set : List GoString) → All P (add_keys ks set) → All P ks × All P set
  unfolding add_keys
  of_add_keys-All [] set h = (tt, h)
  of_add_keys-All (k ∷ ks) set h =
      let (hs, g) = of_add_keys-All ks (add_key k set) h in
      let (p, gs) = of_add_key-All k set g in ((p, hs), gs)

-- A predicate holds of the keys of both maps exactly when it holds of all keys in the loop's list.
module _ {κ} (P : GoString → Type κ) (xs ys : List GoString) where
  pub sorted_union-All : All P xs → All P ys → All P (sort_strings (union xs ys))
  unfolding union sort_strings
  sorted_union-All h g =
      sort_by-All (λ s. s) P (union xs ys) (add_keys-All P ys _ g (add_keys-All P xs [] h tt))

  pub of_sorted_union-All : All P (sort_strings (union xs ys)) → All P xs × All P ys
  unfolding union sort_strings
  of_sorted_union-All h =
      let (g, f) = of_add_keys-All P ys _ (of_sort_by-All (λ s. s) P (union xs ys) h) in
      ((of_add_keys-All P xs [] f).0, g)

  pub union-All : All P xs → All P ys → All P (union xs ys)
  unfolding union
  union-All h g = add_keys-All P ys _ g (add_keys-All P xs [] h tt)

  pub of_union-All : All P (union xs ys) → All P xs × All P ys
  unfolding union
  of_union-All h = let (g, f) = of_add_keys-All P ys _ h in ((of_add_keys-All P xs [] f).0, g)
