-- ===== src/Diff/Response/Agreement.antt =====
-- When `diffJSON` finds nothing.
use mathlib.Core.Option
use mocking_box.Prelude.{
  ℕ, suc, ◌+◌, ◌≡◌, refl, ap, sym, ◌∙◌, ◌↔◌, ◌⊎◌, inl, inr, Bool, true, false, List, [], ◌∷◌, ◌++◌,
  Option, none, some, arith, Bool-cases, Option-cases, GoString, eqs, eqs_refl, eqs→eq, itoa,
  length, All, append-nil_left, append-nil_right, subst,
}
use mocking_box.Diff.Value.{
  Numerics, Value, array, object, Items, nil, cons, Fields, end, field, items, keys, lookup,
}
use mocking_box.Diff.Canonical.{equal}
use mocking_box.Diff.Keys.{sorted_union-All, of_sorted_union-All}
use mocking_box.Diff.Response.{
  Difference, Member, diff_leaf, find, diff_key, diff_keys, all_keys, diff_length, diff_json,
  diff_items, members,
}

abbrev both_containers : {N : Numerics} → Value N → Value N → Bool
both_containers (object fs) (object gs) = true
both_containers (array xs) (array ys) = true
both_containers a b = false

mutual
  -- Two values agree: objects key by key, arrays element by element, and all else by `equal`.
  pub data Agrees (N : Numerics) : Value N → Value N → Type 0 where
    leaves : {a b : Value N} → both_containers a b ≡ false → equal a b ≡ true → Agrees N a b
    arrays : {xs ys : Items N} → AgreesAll N xs ys → Agrees N (array xs) (array ys)
    objects :
        {fs gs : Fields N}
        → ((k : GoString) → AgreesAt N (lookup k fs) (lookup k gs))
        → Agrees N (object fs) (object gs)

  pub data AgreesAt (N : Numerics) : Option (Value N) → Option (Value N) → Type 0 where
    missing : AgreesAt N none none
    present : {a b : Value N} → Agrees N a b → AgreesAt N (some a) (some b)

  pub data AgreesAll (N : Numerics) : Items N → Items N → Type 0 where
    stop : AgreesAll N nil nil
    next :
        {a b : Value N} {xs ys : Items N}
        → Agrees N a b
        → AgreesAll N xs ys
        → AgreesAll N (cons a xs) (cons b ys)

module _ {N : Numerics} where
  module _ (P : GoString → Type 0) (fs gs : Fields N) where
    all_keys-All : All P (keys fs) → All P (keys gs) → All P (all_keys fs gs)
    unfolding all_keys
    all_keys-All h g = sorted_union-All P (keys fs) (keys gs) h g

    of_all_keys-All : All P (all_keys fs gs) → All P (keys fs) × All P (keys gs)
    unfolding all_keys
    of_all_keys-All h = of_sorted_union-All P (keys fs) (keys gs) h

  module _ (P : GoString → Type 0) where
    -- A predicate of all keys holds of each key that can be looked up.
    keys_at :
        (fs : Fields N) (k : GoString) (v : Value N) → All P (keys fs) → lookup k fs ≡ some v → P k
    unfolding lookup
    keys_at end k v h e = cc
    keys_at (field j u fs) k v (p, h) e = elim (Bool-cases (eqs j k)) [
      | inl d ↦ subst P (eqs→eq j k d) p
      | inr d ↦ keys_at fs k v h (rw d at e)
    ]

    keys_of :
        (fs : Fields N)
        → ((k : GoString) (v : Value N) → lookup k fs ≡ some v → P k)
        → All P (keys fs)
    unfolding lookup
    keys_of end h = tt
    keys_of (field j u fs) h = (
      h j u (rw (eqs_refl j)),
      keys_of fs
          (λ k v e. elim (Bool-cases (eqs j k)) [ inl d ↦ h k u (rw d) | inr d ↦ h k v (rw d e) ]),
    )

  member_of : Value N → Member N
  member_of v = (v, λ w path. diff_json v w path)

  members-field :
      (k : GoString) (v : Value N) (fs : Fields N)
      → members (field k v fs) ≡ (k, member_of v) ∷ members fs
  unfolding diff_json member_of
  members-field k v fs = refl

  find-members :
      (fs : Fields N) (k : GoString) → find k (members fs) ≡ Option.map member_of (lookup k fs)
  unfolding find lookup
  find-members end k = unfold diff_json in refl
  find-members (field j u fs) k =
      rw members-field
        (elim (Bool-cases (eqs j k)) [ inl e ↦ rw e | inr e ↦ rw e (find-members fs k) ])

  diff_json-objects :
      (fs gs : Fields N) (path : List GoString)
      → diff_json (object fs) (object gs) path ≡ diff_keys (all_keys fs gs) (members fs) gs path
  unfolding diff_json
  diff_json-objects fs gs path = refl

  diff_json-arrays :
      (xs ys : Items N) (path : List GoString)
      → diff_json (array xs) (array ys) path ≡ diff_length xs ys path ++ diff_items xs ys path 0
  unfolding diff_json
  diff_json-arrays xs ys path = refl

  diff_json-leaves :
      (a b : Value N) (path : List GoString)
      → both_containers a b ≡ false
      → diff_json a b path ≡ diff_leaf a b path
  unfolding diff_json
  diff_json-leaves (object fs) (object gs) path e = cc
  diff_json-leaves (array fs) (array gs) path e = cc
  diff_json-leaves _ b path e = refl

  diff_items-nil : (path : List GoString) (i : ℕ) → diff_items {N = N} nil nil path i ≡ []
  unfolding diff_json
  diff_items-nil path i = refl

  diff_items-cons :
      (x y : Value N) (xs ys : Items N) (path : List GoString) (i : ℕ)
      → diff_items (cons x xs) (cons y ys) path i
        ≡ diff_json x y (path ++ itoa i ∷ []) ++ diff_items xs ys path (i + 1)
  unfolding diff_json
  diff_items-cons x y xs ys path i = refl

  diff_leaf_iff :
      (a b : Value N) (path : List GoString) → (diff_leaf a b path ≡ []) ↔ (equal a b ≡ true)
  unfolding diff_leaf
  diff_leaf_iff a b path = ground arith

  -- What the loop over the keys finds at one key.
  abbrev at_key : Fields N → Fields N → List GoString → GoString → List (Difference N)
  at_key fs gs path k = diff_key (path ++ k ∷ []) (Option.map member_of (lookup k fs)) (lookup k gs)

  diff_keys_iff :
      (ks : List GoString) (fs gs : Fields N) (path : List GoString)
      → (diff_keys ks (members fs) gs path ≡ []) ↔ All (λ k. at_key fs gs path k ≡ []) ks
  unfolding diff_keys
  diff_keys_iff [] fs gs path = (λ _. tt, λ _. refl)
  diff_keys_iff (k ∷ ks) fs gs path = rw find-members (
    λ e. (
      append-nil_left _ _ e,
      (diff_keys_iff ks fs gs path).0 (append-nil_right (at_key fs gs path k) _ e),
    ),
    λ h. rw h.0 ((diff_keys_iff ks fs gs path).1 h.1),
  )

  -- Nothing is found at a key exactly when it is in neither object, or its two values agree.
  at_key_sound :
      (child : List GoString) (o p : Option (Value N))
      → ((v w : Value N) → o ≡ some v → p ≡ some w → diff_json v w child ≡ [] → Agrees N v w)
      → diff_key child (Option.map member_of o) p ≡ []
      → AgreesAt N o p
  unfolding diff_key member_of
  at_key_sound child none none ih e = missing
  at_key_sound child none (some w) ih e = cc
  at_key_sound child (some v) none ih e = cc
  at_key_sound child (some v) (some w) ih e = present (ih v w refl refl e)

  at_absent : (o p : Option (Value N)) → o ≡ none → p ≡ none → AgreesAt N o p
  at_absent none none e d = missing
  at_absent (some v) p e d = cc
  at_absent none (some v) e d = cc

  objects_sound :
      (fs gs : Fields N) (path : List GoString)
      → ((k : GoString) (v w : Value N) (child : List GoString)
          → lookup k fs ≡ some v
          → diff_json v w child ≡ []
          → Agrees N v w)
      → diff_json (object fs) (object gs) path ≡ []
      → Agrees N (object fs) (object gs)
  objects_sound fs gs path ih e =
      let at = λ (k : GoString). at_key fs gs path k ≡ [] in
      let (old, new) =
        of_all_keys-All at fs gs (
          (diff_keys_iff (all_keys fs gs) fs gs path).0 (sym (diff_json-objects fs gs path) ∙ e)) in
      let here : (k : GoString)
          → at_key fs gs path k ≡ []
          → AgreesAt N (lookup k fs) (lookup k gs) =
        λ k d.
          at_key_sound (path ++ k ∷ []) (lookup k fs) (lookup k gs)
            (λ v w found _ d'. ih k v w (path ++ k ∷ []) found d') d in
      objects λ k. elim (Option-cases (lookup k fs)) [
        | inr (v, found) ↦ here k (keys_at at fs k v old found)
        | inl gone ↦ elim (Option-cases (lookup k gs)) [
          | inr (w, found) ↦ here k (keys_at at gs k w new found)
          | inl lost ↦ at_absent _ _ gone lost
        ]
      ]

  leaves_sound :
      (a b : Value N) (path : List GoString)
      → both_containers a b ≡ false
      → diff_json a b path ≡ []
      → Agrees N a b
  leaves_sound a b path c e =
      leaves c ((diff_leaf_iff a b path).0 (sym (diff_json-leaves a b path c) ∙ e))

  -- The arrays differ in length, or one element follows in each.
  diff_length_iff :
      (xs ys : Items N) (path : List GoString)
      → (diff_length xs ys path ≡ []) ↔ (length (items xs) ≡ length (items ys))
  unfolding diff_length
  diff_length_iff xs ys path = ground arith

some_inj {ℓ} : {A : Type ℓ} {a b : A} → some a ≡ some b → a ≡ b
some_inj e = cc

lookup_end : {N : Numerics} (k : GoString) (v : Value N) → lookup k end ≡ some v → ⊥
unfolding lookup
lookup_end k v e = cc

-- A value that is found is the first member's, or is found in the others.
found_cases :
    {N : Numerics} (P : Type 0) (j k : GoString) (u v : Value N) (fs : Fields N)
    → lookup k (field j u fs) ≡ some v
    → (u ≡ v → P)
    → (lookup k fs ≡ some v → P)
    → P
unfolding lookup
found_cases P j k u v fs found here later = elim (Bool-cases (eqs j k)) [
  | inl e ↦ here (some_inj (rw e at found))
  | inr e ↦ later (rw e at found)
]

mutual
  sound :
      {N : Numerics} (a b : Value N) (path : List GoString) → diff_json a b path ≡ [] → Agrees N a b
  sound (object fs) (object gs) path e = objects_sound fs gs path (sound_fields fs) e
  sound (array xs) (array ys) path e = arrays (
      sound_items xs ys path 0
        ((diff_length_iff xs ys path).0
          (append-nil_left _ _ (sym (diff_json-arrays xs ys path) ∙ e)))
        (append-nil_right (diff_length xs ys path) _ (sym (diff_json-arrays xs ys path) ∙ e)))
  sound a b path e = leaves_sound a b path refl e

  sound_items :
      {N : Numerics} (xs ys : Items N) (path : List GoString) (i : ℕ)
      → length (items xs) ≡ length (items ys)
      → diff_items xs ys path i ≡ []
      → AgreesAll N xs ys
  sound_items nil nil path i l e = stop
  sound_items nil (cons y ys) path i l e = absurd (omega arith)
  sound_items (cons x xs) nil path i l e = absurd (omega arith)
  sound_items (cons x xs) (cons y ys) path i l e =
      next
        (sound x y (path ++ itoa i ∷ [])
          (append-nil_left _ _ (sym (diff_items-cons x y xs ys path i) ∙ e)))
        (sound_items xs ys path (i + 1) (omega arith) (
          append-nil_right (diff_json x y (path ++ itoa i ∷ [])) _
            (sym (diff_items-cons x y xs ys path i) ∙ e)))

  sound_fields :
      {N : Numerics} (fs : Fields N) (k : GoString) (v w : Value N) (child : List GoString)
      → lookup k fs ≡ some v
      → diff_json v w child ≡ []
      → Agrees N v w
  sound_fields end k v w child found e = absurd (lookup_end k v found)
  sound_fields {N} (field j u fs) k v w child found e =
      found_cases (Agrees N v w) j k u v fs found
        (λ same. subst (λ z. Agrees N z w) same (sound u w child (rw same e)))
        (λ later. sound_fields fs k v w child later e)

module _ {N : Numerics} where
  at_key_complete :
      (child : List GoString) (o p : Option (Value N)) (v : Value N)
      → (o ≡ some v) ⊎ (p ≡ some v)
      → AgreesAt N o p
      → ((a b : Value N) → o ≡ some a → p ≡ some b → diff_json a b child ≡ [])
      → diff_key child (Option.map member_of o) p ≡ []
  unfolding diff_key member_of
  at_key_complete child none none v (inl e) h ih = cc
  at_key_complete child none none v (inr e) h ih = cc
  at_key_complete child none (some b) v t h ih = elim h [ ]
  at_key_complete child (some a) none v t h ih = elim h [ ]
  at_key_complete child (some a) (some b) v t h ih = ih a b refl refl

  objects_complete :
      (fs gs : Fields N) (path : List GoString)
      → ((k : GoString) → AgreesAt N (lookup k fs) (lookup k gs))
      → ((k : GoString) (a b : Value N) (child : List GoString)
          → lookup k fs ≡ some a
          → lookup k gs ≡ some b
          → diff_json a b child ≡ [])
      → diff_json (object fs) (object gs) path ≡ []
  objects_complete fs gs path h ih =
      let at = λ (k : GoString). at_key fs gs path k ≡ [] in
      let all : (k : GoString) (v : Value N)
          → (lookup k fs ≡ some v) ⊎ (lookup k gs ≡ some v)
          → at k =
        λ k v f.
          at_key_complete (path ++ k ∷ []) (lookup k fs) (lookup k gs) v f (h k)
            (λ a b p q. ih k a b (path ++ k ∷ []) p q) in
      diff_json-objects fs gs path
      ∙ (diff_keys_iff (all_keys fs gs) fs gs path).1 (
          all_keys-All at fs gs (keys_of at fs (λ k v e. all k v (inl e)))
            (keys_of at gs (λ k v e. all k v (inr e))))

  leaves_complete :
      (a b : Value N) (path : List GoString)
      → both_containers a b ≡ false
      → equal a b ≡ true
      → diff_json a b path ≡ []
  leaves_complete a b path c e = diff_json-leaves a b path c ∙ (diff_leaf_iff a b path).1 e

  AgreesAll-length : {xs ys : Items N} → AgreesAll N xs ys → length (items xs) ≡ length (items ys)
  AgreesAll-length stop = refl
  AgreesAll-length (next a h) = ap suc (AgreesAll-length h)

-- By recursion on the agreement.
mutual
  complete :
      {N : Numerics} {a b : Value N}
      → Agrees N a b
      → (path : List GoString) → diff_json a b path ≡ []
  complete (leaves {a} {b} c e) path = leaves_complete a b path c e
  complete (arrays {xs} {ys} h) path =
      rw (diff_json-arrays, (diff_length_iff xs ys path).1 (AgreesAll-length h))
        (complete_all h path 0)
  complete (objects {fs} {gs} h) path = objects_complete fs gs path h (λ k. complete_at (h k))

  complete_at :
      {N : Numerics} {o p : Option (Value N)}
      → AgreesAt N o p
      → (a b : Value N) (child : List GoString) → o ≡ some a
      → p ≡ some b
      → diff_json a b child ≡ []
  complete_at missing a b child e d = cc
  complete_at (present {a = x} {b = y} h) a b child e d =
      subst (λ z. diff_json z b child ≡ []) (some_inj e)
        (subst (λ z. diff_json x z child ≡ []) (some_inj d) (complete h child))

  complete_all :
      {N : Numerics} {xs ys : Items N}
      → AgreesAll N xs ys
      → (path : List GoString) (i : ℕ) → diff_items xs ys path i ≡ []
  complete_all stop path i = diff_items-nil path i
  complete_all (next {a} {b} {xs} {ys} h hs) path i =
      rw (diff_items-cons, complete h (path ++ itoa i ∷ [])) (complete_all hs path (i + 1))

-- `diffJSON` reports nothing exactly when the two values agree: objects have the same keys with
-- values that agree, arrays have the same length with elements that agree, and any other two values
-- have the same canonical text.
pub diff_json_iff :
    {N : Numerics} (a b : Value N) (path : List GoString) → (diff_json a b path ≡ []) ↔ Agrees N a b
diff_json_iff a b path = (sound a b path, λ h. complete h path)
