-- ===== src/Diff/Strip/Reading.antt =====
-- What can be read from a value after `StripNoise`.
use mathlib.Core.Option
use mathlib.Core.List.{append_assoc, append-nil}
use mocking_box.Prelude.{
  ℕ, ◌+◌, ◌≡◌, refl, ap, ◌∙◌, sym, Bool, true, false, ◌||◌, ◌&&◌, List, [], ◌∷◌, ◌++◌, Option, none,
  some, arith, if◌then◌else◌, Bool-cases, GoString, eqs, eqs_refl, eqs→eq, subst, itoa, inl, inr,
}
use mocking_box.Diff.Value.{
  Numerics, Value, array, object, Items, nil, cons, Fields, end, field, lookup,
}
use mocking_box.Diff.Strip.{is_noise, strip_value, strip_items, strip_fields, strip_noise}

module _ {N : Numerics} where
  -- The element whose index, counted from `i`, is written `k`.
  elem_at : GoString → Items N → ℕ → Option (Value N)
  elem_at k nil i = none
  elem_at k (cons v vs) i = if eqs (itoa i) k then some v else elem_at k vs (i + 1)

  elem_here :
      (k : GoString) (v : Value N) (vs : Items N) (i : ℕ)
      → eqs (itoa i) k ≡ true
      → elem_at k (cons v vs) i ≡ some v
  unfolding elem_at
  elem_here k v vs i e = rw e

  elem_later :
      (k : GoString) (v : Value N) (vs : Items N) (i : ℕ)
      → eqs (itoa i) k ≡ false
      → elem_at k (cons v vs) i ≡ elem_at k vs (i + 1)
  unfolding elem_at
  elem_later k v vs i e = rw e

  lookup_here : (k : GoString) (v : Value N) (fs : Fields N) → lookup k (field k v fs) ≡ some v
  unfolding lookup
  lookup_here k v fs = rw (eqs_refl k)

  lookup_later :
      (j k : GoString) (v : Value N) (fs : Fields N)
      → eqs j k ≡ false
      → lookup k (field j v fs) ≡ lookup k fs
  unfolding lookup
  lookup_later j k v fs e = rw e

  -- One step down a value: a key of an object, or the index of an array's element.
  pub child_of : Value N → GoString → Option (Value N)
  unfolding elem_at
  child_of (object fs) k = lookup k fs
  child_of (array xs) k = elem_at k xs 0
  child_of v k = none

  -- The value at a path, if there is one.
  pub value_at : Value N → List GoString → Option (Value N)
  value_at v [] = some v
  value_at v (k ∷ path) = elim (child_of v k) [ none ↦ none | some w ↦ value_at w path ]

  abbrev pub is_object : Value N → Bool
  is_object (object fs) = true
  is_object v = false

  -- Whether a noise pattern matches the path to some object member on the way down.
  pub is_hidden : List GoString → Value N → List GoString → List GoString → Bool
  is_hidden patterns v done [] = false
  is_hidden patterns v done (k ∷ path) =
      let child = done ++ k ∷ [] in
      is_object v && is_noise patterns child
      || elim (child_of v k) [ none ↦ false | some w ↦ is_hidden patterns w child path ]

module _ {N : Numerics} (patterns : List GoString) where
  strip_fields-field :
      (k : GoString) (v : Value N) (fs : Fields N) (path : List GoString)
      → strip_fields patterns (field k v fs) path ≡ (
          if is_noise patterns (path ++ k ∷ [])
          then strip_fields patterns fs path
          else field k (strip_value patterns v (path ++ k ∷ [])) (strip_fields patterns fs path))
  unfolding strip_value
  strip_fields-field k v fs path = refl

  strip_items-cons :
      (v : Value N) (vs : Items N) (path : List GoString) (i : ℕ)
      → strip_items patterns (cons v vs) path i
        ≡ cons (strip_value patterns v (path ++ itoa i ∷ [])) (strip_items patterns vs path (i + 1))
  unfolding strip_value
  strip_items-cons v vs path i = refl

  lookup-strip :
      (fs : Fields N) (path : List GoString) (k : GoString)
      → lookup k (strip_fields patterns fs path) ≡ (
          if is_noise patterns (path ++ k ∷ [])
          then none
          else Option.map (λ v. strip_value patterns v (path ++ k ∷ [])) (lookup k fs))
  lookup-strip end path k = unfold strip_value lookup in ground arith
  lookup-strip (field j v fs) path k = rw strip_fields-field (elim (Bool-cases (eqs j k)) [
    | inl e ↦ rw (eqs→eq j k e) (
        ground (
          arith,
          lookup-strip fs path k,
          lookup_here k (strip_value patterns v (path ++ k ∷ [])) (strip_fields patterns fs path),
          lookup_here k v fs,
        ))
    | inr e ↦ ground (
      arith,
      lookup-strip fs path k,
      lookup_later j k (strip_value patterns v (path ++ j ∷ [])) (strip_fields patterns fs path) e,
      lookup_later j k v fs e,
    )
  ])

  elem_at-strip :
      (vs : Items N) (path : List GoString) (k : GoString) (i : ℕ)
      → elem_at k (strip_items patterns vs path i) i
        ≡ Option.map (λ v. strip_value patterns v (path ++ k ∷ [])) (elem_at k vs i)
  elem_at-strip nil path k i = unfold strip_value elem_at in refl
  elem_at-strip (cons v vs) path k i = rw strip_items-cons (elim (Bool-cases (eqs (itoa i) k)) [
    | inl e ↦
        rw (elem_here k _ (strip_items patterns vs path (i + 1)) i e, elem_here k v vs i e)
          (rw (eqs→eq (itoa i) k e))
    | inr e ↦
        elem_later k _ (strip_items patterns vs path (i + 1)) i e
        ∙ elem_at-strip vs path k (i + 1)
        ∙ ap (Option.map (λ w. strip_value patterns w (path ++ k ∷ [])))
            (sym (elem_later k v vs i e))
  ])

  child_of-strip :
      (v : Value N) (path : List GoString) (k : GoString)
      → child_of (strip_value patterns v path) k ≡ (
          if is_object v && is_noise patterns (path ++ k ∷ [])
          then none
          else Option.map (λ w. strip_value patterns w (path ++ k ∷ [])) (child_of v k))
  unfolding child_of strip_value
  child_of-strip (object fs) path k = lookup-strip fs path k
  child_of-strip (array xs) path k = elem_at-strip xs path k 0
  child_of-strip v path k = refl

  value_at-strip_nil :
      (v : Value N) (done : List GoString)
      → value_at (strip_value patterns v done) [] ≡ (
          if is_hidden patterns v done []
          then none
          else Option.map (λ w. strip_value patterns w (done ++ [])) (value_at v []))
  unfolding value_at is_hidden
  value_at-strip_nil v done = rw append-nil

  -- The value that a step leads to, read further.
  module _ (done : List GoString) (k : GoString) (path : List GoString) where
    step_hidden :
        (b : Bool) (o : Option (Value N))
        → ((w : Value N)
            → value_at (strip_value patterns w (done ++ k ∷ [])) path ≡ (
                if is_hidden patterns w (done ++ k ∷ []) path
                then none
                else Option.map
                    (λ u. strip_value patterns u ((done ++ k ∷ []) ++ path))
                    (value_at w path)))
        → elim (if b then none else Option.map (λ w. strip_value patterns w (done ++ k ∷ [])) o) [
          | none ↦ none
          | some w ↦ value_at w path
        ]
          ≡ (if b || elim o [ none ↦ false | some w ↦ is_hidden patterns w (done ++ k ∷ []) path ]
              then none
              else Option.map
                  (λ u. strip_value patterns u (done ++ (k ∷ path)))
                  (elim o [ none ↦ none | some w ↦ value_at w path ]))
    step_hidden true o ih = refl
    step_hidden false none ih = refl
    step_hidden false (some w) ih =
        subst
          (λ q. value_at (strip_value patterns w (done ++ k ∷ [])) path ≡ (
            if is_hidden patterns w (done ++ k ∷ []) path
            then none
            else Option.map (λ u. strip_value patterns u q) (value_at w path)))
          (append_assoc done (k ∷ []) path) (ih w)

  value_at-cons :
      (v : Value N) (k : GoString) (path : List GoString)
      → value_at v (k ∷ path) ≡ elim (child_of v k) [ none ↦ none | some w ↦ value_at w path ]
  unfolding value_at
  value_at-cons v k path = refl

  is_hidden-cons :
      (v : Value N) (done : List GoString) (k : GoString) (path : List GoString)
      → is_hidden patterns v done (k ∷ path) ≡ (
          (is_object v && is_noise patterns (done ++ k ∷ [])) || elim (child_of v k) [
            | none ↦ false
            | some w ↦ is_hidden patterns w (done ++ k ∷ []) path
          ])
  unfolding is_hidden
  is_hidden-cons v done k path = refl

  value_at-strip :
      (v : Value N) (done path : List GoString)
      → value_at (strip_value patterns v done) path ≡ (
          if is_hidden patterns v done path
          then none
          else Option.map (λ w. strip_value patterns w (done ++ path)) (value_at v path))
  value_at-strip v done [] = value_at-strip_nil v done
  value_at-strip v done (k ∷ path) =
      rw (value_at-cons, child_of-strip, is_hidden-cons, value_at-cons)
        (step_hidden done k path (is_object v && is_noise patterns (done ++ k ∷ [])) (child_of v k)
          (λ w. value_at-strip w (done ++ k ∷ []) path))

  -- After `StripNoise`, nothing can be read at a path that passes an object member on a noise path;
  -- at every other path stands what stood there, itself stripped of its noise.
  pub value_at-strip_noise :
      (v : Value N) (path : List GoString)
      → value_at (strip_noise patterns v) path ≡ (
          if is_hidden patterns v [] path
          then none
          else Option.map (λ w. strip_value patterns w path) (value_at v path))
  unfolding strip_noise
  value_at-strip_noise v path = value_at-strip v [] path
