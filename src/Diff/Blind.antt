-- ===== src/Diff/Blind.antt =====
-- Binary values in `equal` and missing columns in `diffPayload`, internal/diff/diff.go.
use mocking_box.Prelude.{
  ℕ, ◌-◌, ◌≤◌, ◌≡◌, refl, ap, true, List, [], ◌∷◌, ◌++◌, none, some, arith, GoString, str, length,
  All, eqs_refl, eqs, Bool-cases, inl, inr, subst, sym, ◌≢◌, ◌⊎◌, eqs→eq, eqs-ne,
}
use mocking_box.Diff.Value.{Numerics, bytes, string, Fields, lookup, keys, is_printable}
use mocking_box.Diff.Json.{rune_width, rune_text, escape}
use mocking_box.Diff.Canonical.{canonical, equal, equal_refl}
use mocking_box.Diff.Keys.{union-All}
use mocking_box.Diff.Response.{absent}
use mocking_box.Diff.Writeset.{diff_payload, or_absent}
use mocking_box.Diff.Writeset.Pairing.{diff_payload_iff}

-- A byte 0b10xxxxxx, which no UTF-8 rune begins with.
abbrev pub IsTail : ℕ → Type 0
IsTail b = (0x80 ≤ b) × (b ≤ 0xbf)

rune_width_tail : (b : ℕ) (rest : GoString) → IsTail b → rune_width b rest ≡ 0
unfolding rune_width
rune_width_tail b rest h = ground arith

-- n replacement characters
replacements : GoString → GoString
replacements [] = []
replacements (b ∷ s) = str "\\ufffd" ++ replacements s

escape-cons :
    (c : ℕ) (rest : GoString)
    → escape 0 (c ∷ rest)
      ≡ rune_text (rune_width c rest) c rest ++ escape (rune_width c rest - 1) rest
unfolding escape
escape-cons c rest = refl

escape_tail : (s : GoString) → All IsTail s → escape 0 s ≡ replacements s
unfolding replacements rune_text
escape_tail [] h = unfold escape in refl
escape_tail (b ∷ s) (p, h) =
    rw (escape-cons, rune_width_tail b s p) (ap (λ t. str "\\ufffd" ++ t) (escape_tail s h))

is_printable_tail : (s : GoString) → All IsTail s → is_printable s ≡ true
unfolding is_printable
is_printable_tail [] h = refl
is_printable_tail (b ∷ s) (p, h) = ground (arith, is_printable_tail s h)

replacements_same : (s t : GoString) → length s ≡ length t → replacements s ≡ replacements t
unfolding replacements rune_text
replacements_same [] [] e = refl
replacements_same [] (b ∷ t) e = absurd (omega arith)
replacements_same (a ∷ s) [] e = absurd (omega arith)
replacements_same (a ∷ s) (b ∷ t) e =
    ap (λ u. str "\\ufffd" ++ u) (replacements_same s t (omega arith))

module _ (N : Numerics) where
  canonical_tail :
      (s : GoString)
      → All IsTail s
      → canonical {N = N} (bytes s) ≡ b'"' ∷ replacements s ++ (b'"' ∷ [])
  unfolding canonical
  canonical_tail s h = rw (is_printable_tail s h, escape_tail s h)

  -- Two binary values of one length whose bytes all lie in 0x80 to 0xbf compare equal, whatever the
  -- bytes are.
  pub equal_of_IsTail :
      (s t : GoString)
      → length s ≡ length t
      → All IsTail s
      → All IsTail t
      → equal {N = N} (bytes s) (bytes t) ≡ true
  unfolding equal
  equal_of_IsTail s t e h k =
      rw (canonical_tail s h, canonical_tail t k, replacements_same s t e)
        (eqs_refl (b'"' ∷ replacements t ++ (b'"' ∷ [])))

module _ {N : Numerics} where
  -- The one row holds the text `<absent>` in the column, and the other has no such column.
  abbrev pub IsAbsentText : GoString → Fields N → Fields N → Type 0
  IsAbsentText k fs gs = (lookup k fs ≡ some (string absent)) × (lookup k gs ≡ none)

  absent-equal :
      (k : GoString) (fs gs : Fields N)
      → IsAbsentText k fs gs
      → equal (or_absent (lookup k fs)) (or_absent (lookup k gs)) ≡ true
  unfolding or_absent
  absent-equal k fs gs (p, q) = rw (p, q) (equal_refl (string absent))

  absent-equal_sym :
      (k : GoString) (fs gs : Fields N)
      → IsAbsentText k gs fs
      → equal (or_absent (lookup k fs)) (or_absent (lookup k gs)) ≡ true
  unfolding or_absent
  absent-equal_sym k fs gs (p, q) = rw (p, q) (equal_refl (string absent))

  -- Two rows of which one holds the text `<absent>` in a column that the other lacks, and that hold the
  -- same in all other columns, are compared without a difference.
  pub diff_payload-absent :
      (label k : GoString) (old new : Fields N)
      → IsAbsentText k old new ⊎ IsAbsentText k new old
      → ((j : GoString) → j ≢ k → lookup j old ≡ lookup j new)
      → diff_payload label old new [] ≡ []
  unfolding or_absent
  diff_payload-absent label k old new missing others =
      (diff_payload_iff label old new []).1
        (refl, union-All same (keys old) (keys new) (all (keys old)) (all (keys new)))
    where
      same : GoString → Type 0
      same j = equal (or_absent (lookup j old)) (or_absent (lookup j new)) ≡ true

      first : same k
      first = elim missing [
        | inl h ↦ absent-equal k old new h
        | inr h ↦ absent-equal_sym k old new h
      ]

      at : (j : GoString) → same j
      at j = elim (Bool-cases (eqs k j)) [
        | inl e ↦ subst same (eqs→eq k j e) first
        | inr e ↦ rw (others j (λ q. eqs-ne k j e (sym q))) (equal_refl (or_absent (lookup j new)))
      ]

      all : (js : List GoString) → All same js
      all [] = tt
      all (j ∷ js) = (at j, all js)
