-- ===== src/Prelude/Sort.antt =====
-- Sorting by a string key: `sort.SliceStable`, and `sort.Slice` and `sort.Strings` at a stable order.
use mathlib.Core.Path.{sym, ◌≡◌, refl, ap, ◌∙◌}
use mathlib.Core.Bool.{false}
use mathlib.Core.Logic.{∥∥₁_elim, ∥∥₁_map, inl, inr}
use mathlib.Core.List.{List, [], ◌∷◌, map, Perm, Permᴰ}
use mathlib.Core.List.Perm
use native.Mathlib.Omega.{arith}
use mocking_box.Prelude.Tests.{if◌then◌else◌, Bool-cases}
use mocking_box.Prelude.Lists.{All}
use mocking_box.Prelude.Strings.{GoString, str_lt, str_lt_asymm, str_le_trans, str_le_antisymm}

module _ {ℓ} {A : Type ℓ} (key : A → GoString) where
  unfoldable pub insert_by : A → List A → List A
  insert_by x [] = x ∷ []
  insert_by x (y ∷ ys) =
      let later = insert_by x ys in if str_lt (key y) (key x) then y ∷ later else x ∷ (y ∷ ys)

  unfoldable pub sort_by : List A → List A
  unfolding insert_by str_lt
  sort_by [] = []
  sort_by (x ∷ xs) = insert_by x (sort_by xs)

  -- Ascending keys.
  abbrev pub IsSortedBy : List A → Type 0
  IsSortedBy [] = Unit
  IsSortedBy (x ∷ xs) = All (λ y. str_lt (key y) (key x) ≡ false) xs × IsSortedBy xs

  -- The sort moves elements and loses none.
  insert_by-perm : (x : A) (ys : List A) → Perm (insert_by x ys) (x ∷ ys)
  unfolding insert_by
  insert_by-perm x [] = Perm.refl (x ∷ [])
  insert_by-perm x (y ∷ ys) = elim (Bool-cases (str_lt (key y) (key x))) [
    | inl h ↦ rw h (Perm.trans (Perm.cons y (insert_by-perm x ys)) (Perm.swap x y ys))
    | inr h ↦ rw h (Perm.refl (x ∷ y ∷ ys))
  ]

  pub sort_by-perm : (xs : List A) → Perm (sort_by xs) xs
  unfolding sort_by
  sort_by-perm [] = Perm.refl []
  sort_by-perm (x ∷ xs) = Perm.trans (insert_by-perm x (sort_by xs)) (Perm.cons x (sort_by-perm xs))

  module _ {κ} (P : A → Type κ) where
    insert_by-All : (x : A) (ys : List A) → P x → All P ys → All P (insert_by x ys)
    unfolding insert_by
    insert_by-All x [] p h = (p, h)
    insert_by-All x (y ∷ ys) p (q, h) = elim (Bool-cases (str_lt (key y) (key x))) [
      | inl e ↦ rw e (q, insert_by-All x ys p h)
      | inr e ↦ rw e (p, (q, h))
    ]

  after :
      (x y : A) (ys : List A)
      → str_lt (key y) (key x) ≡ false
      → All (λ z. str_lt (key z) (key y) ≡ false) ys
      → All (λ z. str_lt (key z) (key x) ≡ false) ys
  after x y [] h k = tt
  after x y (z ∷ ys) h (k, ks) = (str_le_trans (key x) (key y) (key z) h k, after x y ys h ks)

  insert_by-IsSortedBy : (x : A) (ys : List A) → IsSortedBy ys → IsSortedBy (insert_by x ys)
  unfolding insert_by
  insert_by-IsSortedBy x [] h = (tt, tt)
  insert_by-IsSortedBy x (y ∷ ys) (h, hs) = elim (Bool-cases (str_lt (key y) (key x))) [
    | inl e ↦ rw e (
      insert_by-All (λ z. str_lt (key z) (key y) ≡ false) x ys (str_lt_asymm (key y) (key x) e) h,
      insert_by-IsSortedBy x ys hs,
    )
    | inr e ↦ rw e ((e, after x y ys e h), (h, hs))
  ]

  pub sort_by-IsSortedBy : (xs : List A) → IsSortedBy (sort_by xs)
  unfolding sort_by
  sort_by-IsSortedBy [] = tt
  sort_by-IsSortedBy (x ∷ xs) = insert_by-IsSortedBy x (sort_by xs) (sort_by-IsSortedBy xs)

  -- A list that is sorted already stays as it is: the sort is stable.
  insert_by_first :
      (x : A) (ys : List A) → All (λ y. str_lt (key y) (key x) ≡ false) ys → insert_by x ys ≡ x ∷ ys
  unfolding insert_by
  insert_by_first x [] h = refl
  insert_by_first x (y ∷ ys) (h, hs) = rw h

  pub sort_by_of_IsSortedBy : (xs : List A) → IsSortedBy xs → sort_by xs ≡ xs
  unfolding sort_by
  sort_by_of_IsSortedBy [] h = refl
  sort_by_of_IsSortedBy (x ∷ xs) (h, hs) = rw (sort_by_of_IsSortedBy xs hs) (insert_by_first x xs h)

-- `sort.Strings`
unfoldable pub sort_strings : List GoString → List GoString
unfolding sort_by
sort_strings = sort_by (λ s. s)

module _ {ℓ} {A : Type ℓ} (key : A → GoString) where
  map-insert_by :
      (x : A) (ys : List A) → map key (insert_by key x ys) ≡ insert_by (λ s. s) (key x) (map key ys)
  unfolding insert_by
  map-insert_by x [] = refl
  map-insert_by x (y ∷ ys) = ground (arith, map-insert_by x ys)

  pub map-sort_by : (xs : List A) → map key (sort_by key xs) ≡ sort_strings (map key xs)
  unfolding sort_strings
  map-sort_by [] = refl
  map-sort_by (x ∷ xs) =
      map-insert_by x (sort_by key xs) ∙ ap (insert_by (λ s. s) (key x)) (map-sort_by xs)

insert_comm :
    (a b : GoString) (l : List GoString)
    → insert_by (λ s. s) a (insert_by (λ s. s) b l) ≡ insert_by (λ s. s) b (insert_by (λ s. s) a l)
unfolding insert_by
insert_comm a b [] = ground (arith, str_lt_asymm a b, str_lt_asymm b a, str_le_antisymm a b)
insert_comm a b (c ∷ l) = ground (
  arith,
  insert_comm a b l,
  str_lt_asymm a b,
  str_lt_asymm b a,
  str_le_antisymm a b,
  str_le_trans a c b,
  str_le_trans b c a,
  str_lt_asymm c a,
  str_lt_asymm c b,
  str_lt_asymm a c,
  str_lt_asymm b c,
  str_le_trans c a b,
  str_le_trans c b a,
)

strings_set : IsSet (List GoString)
strings_set = hlevel

sort_strings-permᴰ : {xs ys : List GoString} → Permᴰ xs ys → sort_strings xs ≡ sort_strings ys
unfolding sort_strings
sort_strings-permᴰ Permᴰ.nil = refl
sort_strings-permᴰ (Permᴰ.cons e p) = λ i. insert_by (λ s. s) (e i) (sort_strings-permᴰ p i)
sort_strings-permᴰ (Permᴰ.swap {a} {b} {l = l} e f) =
    insert_comm a b (sort_by (λ s. s) l)
    ∙ (λ i. insert_by (λ s. s) (f i) (insert_by (λ s. s) (e i) (sort_by (λ s. s) l)))
sort_strings-permᴰ (Permᴰ.trans p q) = sort_strings-permᴰ p ∙ sort_strings-permᴰ q

-- The order of the input does not show in the output.
pub sort_strings-perm : {xs ys : List GoString} → Perm xs ys → sort_strings xs ≡ sort_strings ys
sort_strings-perm p = ∥∥₁_elim p (strings_set _ _) sort_strings-permᴰ

map-permᴰ {ℓ κ} :
    {A : Type ℓ} {B : Type κ} (f : A → B) {xs ys : List A}
    → Permᴰ xs ys
    → Permᴰ (map f xs) (map f ys)
map-permᴰ f Permᴰ.nil = Permᴰ.nil
map-permᴰ f (Permᴰ.cons e p) = Permᴰ.cons (ap f e) (map-permᴰ f p)
map-permᴰ f (Permᴰ.swap e d) = Permᴰ.swap (ap f e) (ap f d)
map-permᴰ f (Permᴰ.trans p q) = Permᴰ.trans (map-permᴰ f p) (map-permᴰ f q)

pub map-perm {ℓ κ} :
    {A : Type ℓ} {B : Type κ} (f : A → B) {xs ys : List A} → Perm xs ys → Perm (map f xs) (map f ys)
map-perm f p = ∥∥₁_map p (map-permᴰ f)

-- Sorting two permutations of one list gives the same keys, in the same order.
pub map-sort_by-perm {ℓ} :
    {A : Type ℓ} (key : A → GoString) {xs ys : List A}
    → Perm xs ys
    → map key (sort_by key xs) ≡ map key (sort_by key ys)
map-sort_by-perm key {xs} {ys} p =
    map-sort_by key xs ∙ sort_strings-perm (map-perm key p) ∙ sym (map-sort_by key ys)

module _ {ℓ κ} {A : Type ℓ} (key : A → GoString) (P : A → Type κ) where
  of_insert_by-All : (x : A) (ys : List A) → All P (insert_by key x ys) → P x × All P ys
  unfolding insert_by
  of_insert_by-All x [] h = h
  of_insert_by-All x (y ∷ ys) h = elim (Bool-cases (str_lt (key y) (key x))) [
    | inl e ↦ let (q, hs) = rw e at h in let (p, ps) = of_insert_by-All x ys hs in (p, (q, ps))
    | inr e ↦ rw e at h
  ]

  pub sort_by-All : (xs : List A) → All P xs → All P (sort_by key xs)
  unfolding sort_by
  sort_by-All [] h = tt
  sort_by-All (x ∷ xs) (p, h) = insert_by-All key P x (sort_by key xs) p (sort_by-All xs h)

  pub of_sort_by-All : (xs : List A) → All P (sort_by key xs) → All P xs
  unfolding sort_by
  of_sort_by-All [] h = tt
  of_sort_by-All (x ∷ xs) h =
      let (p, hs) = of_insert_by-All x (sort_by key xs) h in (p, of_sort_by-All xs hs)

module _ {ℓ} {A : Type ℓ} (key : A → GoString) where
  insert_by-ne_nil : (x : A) (ys : List A) → insert_by key x ys ≡ [] → ⊥
  unfolding insert_by
  insert_by-ne_nil x [] e = cc
  insert_by-ne_nil x (y ∷ ys) e = ground arith

  pub sort_by-nil : (xs : List A) → sort_by key xs ≡ [] → xs ≡ []
  unfolding sort_by
  sort_by-nil [] e = refl
  sort_by-nil (x ∷ xs) e = absurd (insert_by-ne_nil x (sort_by key xs) e)
