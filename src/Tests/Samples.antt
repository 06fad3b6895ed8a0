-- ===== src/Tests/Samples.antt =====
-- Concrete numbers, values and rows for the tests.
use mocking_box.Prelude.{
  ℕ, List, [], ◌∷◌, none, some, GoString, str, ℤ, pos, wrap_int64, int_eq, int_text, ◌%◌, ◌/◌, ◌==◌,
  itoa,
}
use mocking_box.Diff.Value.{
  Numerics, text, Value, int64, decimal, string, array, object, nil, cons, Fields, end, field,
}
use mocking_box.Diff.Writeset.{RowChange, update_op, insert_op}

-- Floats that hold integers only, and decimals counted in cents.
abbrev pub plain : Numerics
plain = record {
  Float64 = ℤ;
  Float32 = ℤ;
  Decimal = ℕ;
  Opaque = GoString;
  float_to_int64 = wrap_int64;
  int64_to_float = λ x. x;
  float_eq = int_eq;
  widen = λ x. x;
  float64_json = λ x. text (int_text x);
  float32_json = λ x. text (int_text x);
  decimal_is_integral = λ x. x % 100 == 0;
  decimal_int_part = λ x. pos (x / 100);
  decimal_float = λ x. pos (x / 100);
  decimal_json = λ x. text (itoa x);
  opaque_json = λ x. text x;
}

abbrev pub num : ℕ → Value plain
num n = int64 (pos n)

-- {"id": 1, "updated_at": "t", "items": [{"id": 2, "updated_at": "u"}, 5]}
abbrev pub body : Value plain
body = object (
    field (str "id") (num 1) (
      field (str "updated_at") (string (str "t")) (
        field (str "items")
          (array (
            cons
              (object (field (str "id") (num 2) (field (str "updated_at") (string (str "u")) end)))
              (cons (num 5) nil)))
          end)))

-- The same with the keys in another order and another time.
abbrev pub body' : Value plain
body' = object (
    field (str "updated_at") (string (str "w")) (
      field (str "items") (array (cons (object (field (str "id") (num 2) end)) (cons (num 5) nil)))
        (field (str "id") (num 1) end)))

abbrev pub row : ℕ → ℕ → GoString → Fields plain
row id cents time =
    field (str "id") (num id)
      (field (str "balance") (decimal cents) (field (str "updated_at") (string time) end))

-- `UPDATE wallet SET balance = …`
abbrev pub charge : RowChange plain
charge = record {
  table = str "demo.wallet";
  op = update_op;
  before = some (row 1 5000000 (str "a"));
  after = some (row 1 5500000 (str "b"));
  query = [];
}

-- `INSERT INTO wallet_history …`
abbrev pub history : RowChange plain
history = record {
  table = str "demo.wallet_history";
  op = insert_op;
  before = none;
  after = some (row 7 500000 (str "c"));
  query = str "INSERT";
}

abbrev pub noise_columns : List GoString
noise_columns = str "*.updated_at" ∷ []
