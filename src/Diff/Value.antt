-- ===== src/Diff/Value.antt =====
-- The dynamic values of internal/diff/diff.go (`any`), and `NormValue`.
use mocking_box.Prelude.{
  ℕ, Bool, true, false, List, [], ◌∷◌, Option, none, some, ltb, if◌then◌else◌, GoString, eqs, ℤ,
  wrap_int64, ◌+◌, ◌-◌, ◌/◌, ◌%◌, ◌*◌,
}

-- What `json.Marshal` makes of a value: its text, or an error's message.
pub data Encoded : Type 0 where
  text : GoString → Encoded
  failed : GoString → Encoded

-- Floating point, the decimals of github.com/shopspring/decimal, and the other dynamic types that a
-- database driver hands over (`time.Time`, …) with their own JSON text.
pub record Numerics : Type 1 where
  pub Float64 : Type 0
  pub Float32 : Type 0
  pub Decimal : Type 0
  pub Opaque : Type 0
  -- `int64(x)` and `float64(i)`
  pub float_to_int64 : Float64 → ℤ
  pub int64_to_float : ℤ → Float64
  -- `x == y`
  pub float_eq : Float64 → Float64 → Bool
  -- `float64(x)` for a `float32`
  pub widen : Float32 → Float64
  pub float64_json : Float64 → Encoded
  pub float32_json : Float32 → Encoded
  -- `x.Equal(x.Truncate(0))`, `x.IntPart()` and `x.Float64()`
  pub decimal_is_integral : Decimal → Bool
  pub decimal_int_part : Decimal → ℤ
  pub decimal_float : Decimal → Float64
  pub decimal_json : Decimal → Encoded
  pub opaque_json : Opaque → Encoded

-- The integer types other than `int64`.
pub data IntType : Type 0 where
  int int8 int16 int32 uint uint8 uint16 uint32 uint64 : IntType

mutual
  pub data Value (N : Numerics) : Type 0 where
    null : Value N
    bool : Bool → Value N
    int64 : ℤ → Value N
    sized : IntType → ℤ → Value N
    float64 : N.Float64 → Value N
    float32 : N.Float32 → Value N
    decimal : N.Decimal → Value N
    string : GoString → Value N
    bytes : GoString → Value N
    opaque : N.Opaque → Value N
    array : Items N → Value N
    object : Fields N → Value N

  pub data Items (N : Numerics) : Type 0 where
    nil : Items N
    cons : Value N → Items N → Items N

  -- A `map[string]any`; the first entry of a key counts.
  pub data Fields (N : Numerics) : Type 0 where
    end : Fields N
    field : GoString → Value N → Fields N → Fields N

module _ {N : Numerics} where
  abbrev pub items : Items N → List (Value N)
  items nil = []
  items (cons v vs) = v ∷ items vs

  abbrev pub entries : Fields N → List (GoString × Value N)
  entries end = []
  entries (field k v fs) = (k, v) ∷ entries fs

  -- `v, ok := m[k]`
  unfoldable pub lookup : GoString → Fields N → Option (Value N)
  lookup k end = none
  lookup k (field j v fs) = if eqs j k then some v else lookup k fs

  abbrev pub keys : Fields N → List GoString
  keys end = []
  keys (field k v fs) = k ∷ keys fs

-- `isPrintable`
unfoldable pub is_printable : GoString → Bool
is_printable [] = true
is_printable (c ∷ b) = if ltb c 0x09 then false else is_printable b

base64_char : ℕ → ℕ
base64_char n =
    if ltb n 26
    then b'A' + n
    else if ltb n 52
    then b'a' + (n - 26)
    else if ltb n 62
    then b'0' + (n - 52)
    else if ltb n 63
    then b'+'
    else b'/'

-- `base64.StdEncoding.EncodeToString`
unfoldable pub base64 : GoString → GoString
unfolding base64_char
base64 [] = []
base64 (a ∷ []) = base64_char (a / 4) ∷ base64_char (a % 4 * 16) ∷ b'=' ∷ b'=' ∷ []
base64 (a ∷ b ∷ []) =
    base64_char (a / 4) ∷ base64_char (a % 4 * 16 + b / 16) ∷ base64_char (b % 16 * 4) ∷ b'=' ∷ []
base64 (a ∷ b ∷ c ∷ rest) =
    base64_char (a / 4)
    ∷ base64_char (a % 4 * 16 + b / 16)
    ∷ base64_char (b % 16 * 4 + c / 64)
    ∷ base64_char (c % 64)
    ∷ base64 rest

module _ {N : Numerics} where
  norm_decimal : N.Decimal → Value N
  norm_decimal x =
      if N.decimal_is_integral x then int64 (N.decimal_int_part x) else float64 (N.decimal_float x)

  norm_float : N.Float64 → Value N
  norm_float x =
      if N.float_eq x (N.int64_to_float (N.float_to_int64 x))
      then int64 (N.float_to_int64 x)
      else float64 x

  norm_bytes : GoString → Value N
  unfolding is_printable base64
  norm_bytes x = if is_printable x then string x else string (base64 x)

  -- `NormValue`
  unfoldable mutual
    unfolding norm_decimal norm_float norm_bytes wrap_int64

    pub norm_value : Value N → Value N
    norm_value (decimal x) = norm_decimal x
    norm_value (bytes x) = norm_bytes x
    norm_value (float64 x) = norm_float x
    norm_value (sized t x) = int64 (wrap_int64 x)
    norm_value (float32 x) = norm_float (N.widen x)
    norm_value (object x) = object (norm_fields x)
    norm_value (array x) = array (norm_items x)
    norm_value v = v

    pub norm_items : Items N → Items N
    norm_items nil = nil
    norm_items (cons v vs) = cons (norm_value v) (norm_items vs)

    pub norm_fields : Fields N → Fields N
    norm_fields end = end
    norm_fields (field k v fs) = field k (norm_value v) (norm_fields fs)
