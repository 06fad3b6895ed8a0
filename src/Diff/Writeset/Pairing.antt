-- ===== src/Diff/Writeset/Pairing.antt =====
-- When `DiffWritesets` finds nothing.
use mocking_box.Prelude.{
  ◌≡◌, refl, ◌↔◌, ◌⊎◌, inl, inr, true, false, List, [], ◌∷◌, map, if◌then◌else◌, Bool-cases,
  GoString, eqs, eqs→eq, All, subst, sort_by, sort_by-nil, sort_strings, append-nil_left,
  append-nil_right,
}
use mocking_box.Diff.Value.{Numerics, Fields, lookup, keys}
use mocking_box.Diff.Canonical.{equal}
use mocking_box.Diff.Keys.{union, sorted_union-All, of_sorted_union-All}
use mocking_box.Diff.Response.{Difference}
use mocking_box.Diff.Writeset.{
  WriteEntry, payload, payload_map, as_fields, or_absent, payload_diffs, diff_payload, diff_group,
  group, diff_groups, diff_writesets, entry_key, label,
}

other : {P : Type 0} → (false ≡ true) ⊎ P → P
other (inl e) = cc
other (inr p) = p

every : (P : GoString → Type 0) → ((k : GoString) → P k) → (ks : List GoString) → All P ks
every P h [] = tt
every P h (k ∷ ks) = (h k, every P h ks)

module _ {N : Numerics} where
  -- Every column of either row is equal in both, where `<absent>` stands for a missing one.
  abbrev pub SameColumns : Fields N → Fields N → Type 0
  SameColumns old new =
      All (λ k. equal (or_absent (lookup k old)) (or_absent (lookup k new)) ≡ true)
        (union (keys old) (keys new))

  -- Two rows with equal canonical texts, or equal column by column.
  abbrev pub SamePayload : WriteEntry N → WriteEntry N → Type 0
  SamePayload o n =
      (equal (payload_map o) (payload_map n) ≡ true)
      ⊎ SameColumns (as_fields (payload o)) (as_fields (payload n))

  -- As many old entries as new ones, whose payloads agree as above, in order.
  abbrev pub Paired : List (WriteEntry N) → List (WriteEntry N) → Type 0
  Paired [] [] = Unit
  Paired (o ∷ olds) (n ∷ news) = SamePayload o n × Paired olds news
  Paired [] (n ∷ news) = ⊥
  Paired (o ∷ olds) [] = ⊥

  payload_diffs_iff :
      (l : GoString) (old new : Fields N) (ks : List GoString)
      → (payload_diffs l old new ks ≡ [])
        ↔ All (λ k. equal (or_absent (lookup k old)) (or_absent (lookup k new)) ≡ true) ks
  unfolding payload_diffs
  payload_diffs_iff l old new [] = (λ _. tt, λ _. refl)
  payload_diffs_iff l old new (k ∷ ks) =
      let ih = payload_diffs_iff l old new ks in
      elim (Bool-cases (equal (or_absent (lookup k old)) (or_absent (lookup k new)))) [
        | inl e ↦ rw e (λ h. (refl, ih.0 h), λ h. ih.1 h.1)
        | inr e ↦ rw e (λ h. cc, λ h. cc (h.0))
      ]

  pub diff_payload_iff :
      (l : GoString) (old new : Fields N) (out : List (Difference N))
      → (diff_payload l old new out ≡ []) ↔ ((out ≡ []) × SameColumns old new)
  unfolding diff_payload
  diff_payload_iff l old new out = (
    λ e.
        let none_left = sort_by-nil (λ d. d.path) _ e in
        (
          append-nil_left out _ none_left,
          (payload_diffs_iff l old new (union (keys old) (keys new))).0
              (append-nil_right out _ none_left),
        ),
    λ h.
        rw (h.0, (payload_diffs_iff l old new (union (keys old) (keys new))).1 h.1)
          (unfold sort_by in refl),
  )

  -- One round of the first loop.
  abbrev paired_out : WriteEntry N → WriteEntry N → List (Difference N) → List (Difference N)
  paired_out o n out =
      if equal (payload_map o) (payload_map n)
      then out
      else diff_payload (label o) (as_fields (payload o)) (as_fields (payload n)) out

  paired_out_iff :
      (o n : WriteEntry N) (out : List (Difference N))
      → (paired_out o n out ≡ []) ↔ ((out ≡ []) × SamePayload o n)
  paired_out_iff o n out = elim (Bool-cases (equal (payload_map o) (payload_map n))) [
    | inl e ↦ rw e (λ h. (h, inl refl), λ h. h.0)
    | inr e ↦
        let inner =
          diff_payload_iff (label o) (as_fields (payload o)) (as_fields (payload n)) out in
        rw e (λ h. let (a, b) = inner.0 h in (a, inr b), λ h. inner.1 (h.0, other (h.1)))
  ]

  diff_group_iff :
      (olds news : List (WriteEntry N)) (out : List (Difference N))
      → (diff_group olds news out ≡ []) ↔ ((out ≡ []) × Paired olds news)
  unfolding diff_group
  diff_group_iff [] [] out = (λ e. (append-nil_left out [] e, tt), λ h. rw h.0)
  diff_group_iff [] (n ∷ news) out = (λ e. cc (append-nil_right out _ e), λ h. absurd h.1)
  diff_group_iff (o ∷ olds) [] out = (λ e. cc (append-nil_right out _ e), λ h. absurd h.1)
  diff_group_iff (o ∷ olds) (n ∷ news) out =
      let later = diff_group_iff olds news (paired_out o n out) in
      let here = paired_out_iff o n out in
      (
        λ e. let (a, b) = later.0 e in let (c, d) = here.0 a in (c, (d, b)),
        λ h. later.1 (here.1 (h.0, h.1.0), h.1.1),
      )

  diff_groups_iff :
      (ks : List GoString) (olds news : List (WriteEntry N)) (out : List (Difference N))
      → (diff_groups ks olds news out ≡ [])
        ↔ ((out ≡ []) × All (λ k. Paired (group k olds) (group k news)) ks)
  unfolding diff_groups
  diff_groups_iff [] olds news out = (λ e. (e, tt), λ h. h.0)
  diff_groups_iff (k ∷ ks) olds news out =
      let here = diff_group_iff (group k olds) (group k news) out in
      let later = diff_groups_iff ks olds news (diff_group (group k olds) (group k news) out) in
      (
        λ e. let (a, b) = later.0 e in let (c, d) = here.0 a in (c, (d, b)),
        λ h. later.1 (here.1 (h.0, h.1.0), h.1.1),
      )

  -- A key that no entry has leads to no group.
  group_cases :
      (P : GoString → Type 0) (k : GoString) (ws : List (WriteEntry N))
      → All P (map entry_key ws)
      → (group k ws ≡ []) ⊎ P k
  unfolding group
  group_cases P k [] h = inl refl
  group_cases P k (w ∷ ws) (p, h) = elim (Bool-cases (eqs (entry_key w) k)) [
    | inl e ↦ inr (subst P (eqs→eq (entry_key w) k e) p)
    | inr e ↦ rw e (group_cases P k ws h)
  ]

  Paired-nil : (olds news : List (WriteEntry N)) → olds ≡ [] → news ≡ [] → Paired olds news
  Paired-nil [] [] e d = tt
  Paired-nil (o ∷ olds) news e d = cc
  Paired-nil [] (n ∷ news) e d = cc

  -- `DiffWritesets` reports nothing exactly when, for every key of table, operation and primary key,
  -- both write-sets have as many entries, and their payloads, taken in order, have equal canonical
  -- texts or are equal column by column, where a missing column counts as the text `<absent>`.
  pub diff_writesets_iff :
      (olds news : List (WriteEntry N))
      → (diff_writesets olds news ≡ []) ↔ ((k : GoString) → Paired (group k olds) (group k news))
  unfolding diff_writesets
  diff_writesets_iff olds news =
      let at = λ (k : GoString). Paired (group k olds) (group k news) in
      let all =
        diff_groups_iff (sort_strings (union (map entry_key olds) (map entry_key news))) olds news
          [] in
      (
        λ e k.
            let (old, new) =
              of_sorted_union-All at (map entry_key olds) (map entry_key news) ((all.0 e).1) in
            elim (group_cases at k olds old) [
              | inr p ↦ p
              | inl gone ↦ elim (group_cases at k news new) [
                | inr p ↦ p
                | inl lost ↦ Paired-nil _ _ gone lost
              ]
            ],
        λ h. all.1 (
          refl,
          sorted_union-All at (map entry_key olds) (map entry_key news) (every at h _)
              (every at h _),
        ),
      )
