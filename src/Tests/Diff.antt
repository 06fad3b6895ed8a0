-- ===== src/Tests/Diff.antt =====
-- internal/diff/diff.go at concrete inputs, those of diff_test.go among them.
use mathlib.Core.List.Perm
use mocking_box.Prelude.{
  ℕ, ◌≡◌, refl, ◌↔◌, true, false, List, [], ◌∷◌, map, none, some, arith, if◌then◌else◌, GoString,
  str, eqs, split, ◌≢◌, sym, Bool-cases, inl, inr, eqs→eq,
}
use mathlib.Core.Option
use mocking_box.Diff.Value.{Value, Fields, field, end, string, bytes, object, lookup}
use mocking_box.Diff.Canonical.{canonical, equal}
use mocking_box.Diff.Path.{path_matches, Matches, path_matches_iff}
use mocking_box.Diff.Strip.{strip_value, strip_noise}
use mocking_box.Diff.Strip.Reading.{value_at, is_hidden, value_at-strip_noise}
use mocking_box.Diff.SortArrays.{SortRule, sort_key, apply_rules}
use mocking_box.Diff.SortArrays.Order.{Ordered, first_rule, apply_rules-Ordered, apply_rules-perm}
use mocking_box.Diff.Response.{absent, diff_json}
use mocking_box.Diff.Response.Agreement.{Agrees, diff_json_iff}
use mocking_box.Diff.Writeset.{entry_text, normalize_writeset, group, diff_writesets, diff_payload}
use mocking_box.Diff.Writeset.Order.{normalize_writeset-perm}
use mocking_box.Diff.Writeset.Pairing.{Paired, diff_writesets_iff}
use mocking_box.Diff.Blind.{equal_of_IsTail, diff_payload-absent}
use mocking_box.Tests.Samples.{plain, num, body, body', charge, history, noise_columns, row}

path_tests :
    (path_matches (str "data.updated_at") (str "data" ∷ str "updated_at" ∷ []) ≡ true)
    × (path_matches (str "**.updated_at") (str "a" ∷ str "b" ∷ str "updated_at" ∷ []) ≡ true)
    × (path_matches (str "**.updated_at") (str "updated_at" ∷ []) ≡ true)
    × (path_matches (str "data.*.id") (str "data" ∷ str "0" ∷ str "id" ∷ []) ≡ true)
    × (path_matches (str "data.updated_at") (str "data" ∷ str "balance" ∷ []) ≡ false)
    × (path_matches (str "*.id") (str "a" ∷ str "b" ∷ str "id" ∷ []) ≡ false)
unfolding path_matches
path_tests = (refl, refl, refl, refl, refl, refl)

canonical_body' : canonical body' ≡ str "{\"id\":1,\"items\":[{\"id\":2},5],\"updated_at\":\"w\"}"
unfolding canonical
canonical_body' = refl

strip_test :
    diff_json
      (strip_noise (str "**.updated_at" ∷ []) body)
      (strip_noise (str "**.updated_at" ∷ []) body')
      []
    ≡ []
unfolding diff_json strip_noise canonical
strip_test = refl

-- A different charge order is one write-set.
charge_test :
    diff_writesets
      (normalize_writeset (charge ∷ history ∷ []) noise_columns [])
      (normalize_writeset (history ∷ charge ∷ []) noise_columns [])
    ≡ []
unfolding diff_writesets normalize_writeset
charge_test = refl

path_matches_iff_example :
    (path_matches (str "**.id") (str "a" ∷ str "id" ∷ []) ≡ true)
    ↔ Matches (split b'.' (str "**.id")) (str "a" ∷ str "id" ∷ [])
path_matches_iff_example = path_matches_iff (str "**.id") (str "a" ∷ str "id" ∷ [])

abbrev to_time : List GoString
to_time = str "items" ∷ str "0" ∷ str "updated_at" ∷ []

value_at-strip_noise_example : value_at (strip_noise (str "**.updated_at" ∷ []) body) to_time ≡ (
    if is_hidden (str "**.updated_at" ∷ []) body [] to_time
    then none
    else Option.map (λ w. strip_value (str "**.updated_at" ∷ []) w to_time) (value_at body to_time))
value_at-strip_noise_example = value_at-strip_noise (str "**.updated_at" ∷ []) body to_time

abbrev by_id : SortRule
by_id = record { path = str "data.items"; by = str "id" }

abbrev at_items : List GoString
at_items = str "data" ∷ str "items" ∷ []

abbrev item : ℕ → Value plain
item n = object (field (str "id") (num n) end)

apply_rules-Ordered_example :
    Ordered
      (first_rule (by_id ∷ []) at_items)
      (item 2 ∷ item 1 ∷ [])
      (apply_rules (by_id ∷ []) at_items (item 2 ∷ item 1 ∷ []))
apply_rules-Ordered_example = apply_rules-Ordered (by_id ∷ []) at_items (item 2 ∷ item 1 ∷ [])

by_id_first : first_rule (by_id ∷ []) at_items ≡ some by_id
unfolding first_rule path_matches
by_id_first = refl

apply_rules-perm_example :
    map (sort_key (str "id")) (apply_rules (by_id ∷ []) at_items (item 2 ∷ item 1 ∷ []))
    ≡ map (sort_key (str "id")) (apply_rules (by_id ∷ []) at_items (item 1 ∷ item 2 ∷ []))
apply_rules-perm_example =
    apply_rules-perm by_id (by_id ∷ []) at_items (item 2 ∷ item 1 ∷ []) (item 1 ∷ item 2 ∷ [])
      by_id_first (Perm.swap (item 1) (item 2) [])

diff_json_iff_example : (diff_json body body' [] ≡ []) ↔ Agrees plain body body'
diff_json_iff_example = diff_json_iff body body' []

normalize_writeset-perm_example :
    map entry_text (normalize_writeset (charge ∷ history ∷ []) noise_columns [])
    ≡ map entry_text (normalize_writeset (history ∷ charge ∷ []) noise_columns [])
normalize_writeset-perm_example =
    normalize_writeset-perm noise_columns [] (Perm.swap history charge [])

diff_writesets_iff_example :
    (diff_writesets (normalize_writeset (charge ∷ []) noise_columns []) [] ≡ []) ↔ (
      (k : GoString)
      → Paired (group k (normalize_writeset (charge ∷ []) noise_columns [])) (group k []))
diff_writesets_iff_example =
    diff_writesets_iff (normalize_writeset (charge ∷ []) noise_columns []) []

equal_of_IsTail_example :
    equal {N = plain} (bytes (0x80 ∷ 0xbf ∷ [])) (bytes (0x9f ∷ 0x81 ∷ [])) ≡ true
equal_of_IsTail_example =
    equal_of_IsTail plain (0x80 ∷ 0xbf ∷ []) (0x9f ∷ 0x81 ∷ []) refl (omega arith) (omega arith)

no_note : lookup (str "note") (row 1 100 (str "t")) ≡ none
unfolding lookup eqs
no_note = refl

abbrev noted : Fields plain
noted = field (str "note") (string absent) (row 1 100 (str "t"))

absent_note : lookup (str "note") noted ≡ some (string absent)
unfolding lookup eqs
absent_note = refl

lookup_other :
    (k j : GoString) (v : Value plain) (fs : Fields plain)
    → j ≢ k
    → lookup j (field k v fs) ≡ lookup j fs
unfolding lookup
lookup_other k j v fs h = elim (Bool-cases (eqs k j)) [
  | inl e ↦ absurd (h (sym (eqs→eq k j e)))
  | inr e ↦ rw e refl
]

diff_payload-absent_example : diff_payload (str "wallet") (row 1 100 (str "t")) noted [] ≡ []
diff_payload-absent_example =
    diff_payload-absent (str "wallet") (str "note") (row 1 100 (str "t")) noted
      (inr (absent_note, no_note))
      (λ j h. sym (lookup_other (str "note") j (string absent) (row 1 100 (str "t")) h))
