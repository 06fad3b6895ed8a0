-- ===== src/Diff/Writeset.antt =====
-- The write-set diff of internal/diff/diff.go and the row changes of internal/writeset/writeset.go.
pub mod Order
pub mod Pairing
use mathlib.Core.List.{filter_map}
use mocking_box.Prelude.{
  ℕ, zero, suc, Bool, true, false, not, ◌||◌, ◌&&◌, List, [], ◌∷◌, ◌++◌, map, Option, none, some,
  if◌then◌else◌, GoString, str, eqs, any, keep, after_last, cut, sort_by, sort_strings, length,
}
use mocking_box.Diff.Value.{
  Numerics, Encoded, text, Value, null, string, object, Fields, end, field, keys, lookup,
  norm_value,
}
use mocking_box.Diff.Json.{marshal, quote, and_then, list_json, member_json, object_json}
use mocking_box.Diff.Canonical.{canonical, or_error, equal}
use mocking_box.Diff.Response.{Difference, absent}
use mocking_box.Diff.Keys.{union}

-- `RowChange`; a nil map is `none`
pub record RowChange (N : Numerics) : Type 0 where
  pub table : GoString
  pub op : GoString
  pub before : Option (Fields N)
  pub after : Option (Fields N)
  pub query : GoString

-- `WriteEntry`
pub record WriteEntry (N : Numerics) : Type 0 where
  pub table : GoString
  pub op : GoString
  pub pk : Value N
  pub values : Option (Fields N)
  pub changed : Option (Fields N)

abbrev pub insert_op : GoString
insert_op = str "INSERT"

abbrev pub update_op : GoString
update_op = str "UPDATE"

abbrev pub delete_op : GoString
delete_op = str "DELETE"

cell_is_noise : GoString → GoString → GoString → Option (GoString × GoString) → Bool
cell_is_noise bare table column none = false
cell_is_noise bare table column (some (pt, pc)) =
    (eqs pt (str "*") || (eqs pt bare || eqs pt table)) && (eqs pc (str "*") || eqs pc column)

-- `colIsNoise`
unfoldable pub col_is_noise : GoString → GoString → List GoString → Bool
unfolding cell_is_noise after_last cut eqs
col_is_noise table column patterns =
    any (λ pat. cell_is_noise (after_last b'.' table) table column (cut b'.' pat)) patterns

module _ {N : Numerics} where
  clean_fields : GoString → List GoString → Fields N → Fields N
  clean_fields table noise end = end
  clean_fields table noise (field k v row) =
      let rest = clean_fields table noise row in
      if col_is_noise table k noise then rest else field k (norm_value v) rest

  -- The closure `clean`.
  clean : GoString → List GoString → Option (Fields N) → Option (Fields N)
  unfolding clean_fields col_is_noise norm_value
  clean table noise none = none
  clean table noise (some row) = some (clean_fields table noise row)

  -- `m[k]` with nil for a missing key, and on a nil map
  unfoldable pub or_nil : Option (Value N) → Value N
  or_nil none = null
  or_nil (some v) = v

  abbrev pub as_fields : Option (Fields N) → Fields N
  as_fields none = end
  as_fields (some fs) = fs

  -- The columns whose cleaned values differ, with both values.
  changed_columns : Fields N → Fields N → List GoString → Fields N
  unfolding lookup or_nil equal
  changed_columns before after [] = end
  changed_columns before after (k ∷ ks) =
      let b = or_nil (lookup k before) in
      let a = or_nil (lookup k after) in
      let rest = changed_columns before after ks in
      if equal b a
      then rest
      else field k (object (field (str "before") b (field (str "after") a end))) rest

  pk_of : Option (Fields N) → Value N
  unfolding lookup or_nil norm_value
  pk_of none = null
  pk_of (some row) = norm_value (or_nil (lookup (str "id") row))

  update_entry : WriteEntry N → Fields N → Option (WriteEntry N)
  update_entry entry end = none
  update_entry entry (field k v fs) = some (record entry { changed = some (field k v fs) })

  -- The body of the loop of `NormalizeWriteset`; `none` is `continue`.
  unfoldable pub entry_of : List GoString → List GoString → RowChange N → Option (WriteEntry N)
  unfolding clean changed_columns pk_of update_entry after_last eqs union
  entry_of noise ignored ch =
      let bare = after_last b'.' ch.table in
      let source = if eqs ch.op delete_op then ch.before else ch.after in
      let entry : WriteEntry N = record {
        table = bare;
        op = ch.op;
        pk = pk_of source;
        values = none;
        changed = none;
      } in
      let before = clean ch.table noise ch.before in
      let after = clean ch.table noise ch.after in
      if any (eqs bare) ignored || any (eqs ch.table) ignored
      then none
      else if eqs ch.op update_op
      then update_entry entry (
          changed_columns (as_fields before) (as_fields after)
            (union (keys (as_fields before)) (keys (as_fields after))))
      else if eqs ch.op insert_op
      then some (record entry { values = after })
      else some (record entry { values = before })

  omit_empty : GoString → Option (Fields N) → List (GoString × Encoded)
  unfolding marshal
  omit_empty name none = []
  omit_empty name (some end) = []
  omit_empty name (some (field k v fs)) = (name, marshal (object (field k v fs))) ∷ []

  -- `canonical(entry)`: the struct's members in the order of its fields
  unfoldable pub entry_text : WriteEntry N → GoString
  unfolding omit_empty object_json list_json member_json quote marshal or_error
  entry_text e = or_error (
      object_json (
        list_json (
          map member_json (
            (str "table", text (quote e.table))
              ∷ (str "op", text (quote e.op))
              ∷ (str "pk", marshal e.pk)
              ∷ omit_empty (str "values") e.values
            ++ omit_empty (str "changed") e.changed))))

  -- `NormalizeWriteset`
  unfoldable pub normalize_writeset :
      List (RowChange N) → List GoString → List GoString → List (WriteEntry N)
  unfolding entry_of entry_text sort_by filter_map
  normalize_writeset changes noise ignored =
      sort_by entry_text (filter_map (entry_of noise ignored) changes)

  -- `payload`
  abbrev pub payload : WriteEntry N → Option (Fields N)
  payload e = elim e.changed [ some fs ↦ some fs | none ↦ e.values ]

  abbrev pub payload_map : WriteEntry N → Value N
  payload_map e = object (as_fields (payload e))

  abbrev payload_value : Option (Fields N) → Value N
  payload_value none = null
  payload_value (some fs) = object fs

  -- The closure `key` of `DiffWritesets`.
  unfoldable pub entry_key : WriteEntry N → GoString
  unfolding canonical
  entry_key e = e.table ++ (str "|" ++ (e.op ++ (str "|" ++ canonical e.pk)))

  label : WriteEntry N → GoString
  unfolding canonical
  label e = e.table ++ (str "[" ++ (e.op ++ (str " pk=" ++ (canonical e.pk ++ str "]"))))

  abbrev writeset : GoString → Value N → Value N → Difference N
  writeset path old new = record { kind = str "writeset"; path = path; old = old; new = new }

  unfoldable pub or_absent : Option (Value N) → Value N
  or_absent none = string absent
  or_absent (some v) = v

  payload_diffs : GoString → Fields N → Fields N → List GoString → List (Difference N)
  unfolding lookup or_absent equal
  payload_diffs label old new [] = []
  payload_diffs label old new (k ∷ ks) =
      let ov = or_absent (lookup k old) in
      let nv = or_absent (lookup k new) in
      let rest = payload_diffs label old new ks in
      if equal ov nv then rest else writeset (label ++ (str "." ++ k)) ov nv ∷ rest

  -- `diffPayload`: all differences found so far are sorted again
  pub diff_payload : GoString → Fields N → Fields N → List (Difference N) → List (Difference N)
  unfolding payload_diffs union sort_by
  diff_payload label old new out =
      sort_by (λ d. d.path) (out ++ payload_diffs label old new (union (keys old) (keys new)))

  -- The three loops of `DiffWritesets` on the entries of one key.
  pub diff_group :
      List (WriteEntry N) → List (WriteEntry N) → List (Difference N) → List (Difference N)
  unfolding diff_payload label equal
  diff_group (o ∷ olds) (n ∷ news) out = diff_group olds news (
      if equal (payload_map o) (payload_map n)
      then out
      else diff_payload (label o) (as_fields (payload o)) (as_fields (payload n)) out)
  diff_group olds [] out =
      out ++ map (λ e. writeset (label e) (payload_value (payload e)) (string absent)) olds
  diff_group [] news out =
      out ++ map (λ e. writeset (label e) (string absent) (payload_value (payload e))) news

  -- `oldBy[k]`
  unfoldable pub group : GoString → List (WriteEntry N) → List (WriteEntry N)
  unfolding keep entry_key eqs
  group k ws = keep (λ e. eqs (entry_key e) k) ws

  pub diff_groups :
      List GoString
      → List (WriteEntry N)
      → List (WriteEntry N)
      → List (Difference N)
      → List (Difference N)
  unfolding diff_group group
  diff_groups [] olds news out = out
  diff_groups (k ∷ ks) olds news out =
      diff_groups ks olds news (diff_group (group k olds) (group k news) out)

  -- `DiffWritesets`
  unfoldable pub diff_writesets : List (WriteEntry N) → List (WriteEntry N) → List (Difference N)
  unfolding diff_groups sort_strings union entry_key
  diff_writesets olds news =
      diff_groups (sort_strings (union (map entry_key olds) (map entry_key news))) olds news []
