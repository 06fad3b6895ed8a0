-- ===== src/Diff/Json.antt =====
-- `json.Marshal` (encoding/json) on the values of internal/diff/diff.go: what `canonical` prints.
use mocking_box.Prelude.{
  ℕ, zero, suc, ◌+◌, ◌-◌, ◌/◌, ◌%◌, Bool, true, false, ◌&&◌, ◌||◌, List, [], ◌∷◌, ◌++◌, ltb, leb,
  ◌==◌, if◌then◌else◌, GoString, str, int_text, sort_by, take,
}
use mocking_box.Diff.Value.{
  Numerics, Encoded, text, failed, Value, null, bool, int64, sized, float64, float32, decimal,
  string, bytes, opaque, array, object, Items, nil, cons, Fields, end, field, base64,
}

abbrev get_or : GoString → ℕ → ℕ
get_or [] i = 256
get_or (x ∷ xs) zero = x
get_or (x ∷ xs) (suc i) = get_or xs i

abbrev between : ℕ → ℕ → ℕ → Bool
between lo hi b = leb lo b && leb b hi

-- A byte 0b10xxxxxx.
abbrev is_tail : ℕ → Bool
is_tail b = between 0x80 0xbf b

-- The second byte of a rune that starts with `c`: neither overlong, nor a surrogate, nor too large.
second_ok : ℕ → ℕ → Bool
second_ok c b =
    if c == 0xe0
    then between 0xa0 0xbf b
    else if c == 0xed
    then between 0x80 0x9f b
    else if c == 0xf0
    then between 0x90 0xbf b
    else if c == 0xf4
    then between 0x80 0x8f b
    else is_tail b

-- The number of bytes of the UTF-8 rune that `c` starts, or 0 where the bytes are no rune.
unfoldable pub rune_width : ℕ → GoString → ℕ
unfolding second_ok
rune_width c rest =
    if ltb c 0x80
    then 1
    else if between 0xc2 0xdf c && is_tail (get_or rest 0)
    then 2
    else if between 0xe0 0xef c && (second_ok c (get_or rest 0) && is_tail (get_or rest 1))
    then 3
    else if between 0xf0 0xf4 c
        && (second_ok c (get_or rest 0) && (is_tail (get_or rest 1) && is_tail (get_or rest 2)))
    then 4
    else 0

hex : ℕ → ℕ
hex n = if ltb n 10 then b'0' + n else b'a' + (n - 10)

-- One byte below 0x80 in a JSON string; `<`, `>` and `&` are escaped too.
unfoldable pub ascii_text : ℕ → GoString
unfolding hex
ascii_text c =
    if c == b'"' || c == 0x5c
    then 0x5c ∷ c ∷ []
    else if c == 8
    then str "\\b"
    else if c == 12
    then str "\\f"
    else if c == 10
    then str "\\n"
    else if c == 13
    then str "\\r"
    else if c == 9
    then str "\\t"
    else if ltb c 0x20 || (c == b'<' || (c == b'>' || c == b'&'))
    then str "\\u00" ++ (hex (c / 16) ∷ hex (c % 16) ∷ [])
    else c ∷ []

-- U+2028 and U+2029 are escaped.
is_line_separator : ℕ → GoString → Bool
is_line_separator c rest =
    c == 0xe2 && (get_or rest 0 == 0x80 && (get_or rest 1 == 0xa8 || get_or rest 1 == 0xa9))

unfoldable pub rune_text : ℕ → ℕ → GoString → GoString
unfolding ascii_text is_line_separator
rune_text zero c rest = str "\\ufffd"
rune_text (suc zero) c rest = ascii_text c
rune_text (suc w) c rest =
    if is_line_separator c rest
    then str "\\u202" ++ ((get_or rest 1 - 0xa8 + b'8') ∷ [])
    else c ∷ take w rest

-- `skip` counts the bytes that the rune before has taken.
unfoldable pub escape : ℕ → GoString → GoString
unfolding rune_width rune_text
escape skip [] = []
escape (suc skip) (c ∷ rest) = escape skip rest
escape zero (c ∷ rest) = let w = rune_width c rest in rune_text w c rest ++ escape (w - 1) rest

unfoldable pub quote : GoString → GoString
unfolding escape
quote s = b'"' ∷ escape 0 s ++ (b'"' ∷ [])

bool_text : Bool → GoString
bool_text true = str "true"
bool_text false = str "false"

-- An error ends the encoding.
abbrev pub and_then : Encoded → (GoString → Encoded) → Encoded
and_then (text t) f = f t
and_then (failed e) f = failed e

-- The elements, with `,` between them.
unfoldable pub list_json : List Encoded → Encoded
list_json [] = text []
list_json (x ∷ []) = x
list_json (x ∷ y ∷ rest) =
    and_then x λ t. and_then (list_json (y ∷ rest)) λ ts. text (t ++ (b',' ∷ ts))

unfoldable pub member_json : GoString × Encoded → Encoded
unfolding quote
member_json (k, e) = and_then e λ t. text (quote k ++ (b':' ∷ t))

members_json : List (GoString × Encoded) → List Encoded
members_json [] = []
members_json (m ∷ ms) = member_json m ∷ members_json ms

abbrev key : GoString × Encoded → GoString
key (k, e) = k

array_json : Encoded → Encoded
array_json e = and_then e λ t. text (b'[' ∷ t ++ (b']' ∷ []))

unfoldable pub object_json : Encoded → Encoded
object_json e = and_then e λ t. text (b'{' ∷ t ++ (b'}' ∷ []))

-- `json.Marshal`: the members of an object in the order of their keys
unfoldable mutual
  unfolding quote bool_text list_json member_json members_json array_json object_json int_text
      sort_by base64

  pub marshal : {N : Numerics} → Value N → Encoded
  marshal null = text (str "null")
  marshal (bool b) = text (bool_text b)
  marshal (int64 x) = text (int_text x)
  marshal (sized t x) = text (int_text x)
  marshal {N} (float64 x) = N.float64_json x
  marshal {N} (float32 x) = N.float32_json x
  marshal {N} (decimal x) = N.decimal_json x
  marshal (string s) = text (quote s)
  marshal (bytes b) = text (quote (base64 b))
  marshal {N} (opaque x) = N.opaque_json x
  marshal (array xs) = array_json (list_json (marshal_items xs))
  marshal (object fs) = object_json (list_json (members_json (sort_by key (marshal_fields fs))))

  pub marshal_items : {N : Numerics} → Items N → List Encoded
  marshal_items nil = []
  marshal_items (cons v vs) = marshal v ∷ marshal_items vs

  pub marshal_fields : {N : Numerics} → Fields N → List (GoString × Encoded)
  marshal_fields end = []
  marshal_fields (field k v fs) = (k, marshal v) ∷ marshal_fields fs
