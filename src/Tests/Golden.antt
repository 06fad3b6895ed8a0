-- ===== src/Tests/Golden.antt =====
-- Goldens that are written and read again, in formats that write names only, or a long line.
use mocking_box.Prelude.{
  ℕ, zero, suc, ap, length, ◌≤◌, ◌++◌, arith, ◌≡◌, refl, List, [], ◌∷◌, GoString, str, eqs, pos,
  none, sort_by, Result, ok, fail, and_then, trim_space, ◌==◌, if◌then◌else◌, false,
}
use mocking_box.Diff.Value.{null}
use mocking_box.Golden.{Meta, Entry, Format, first_meta, read, max_line, too_long}
use mocking_box.Golden.Reading.{recorded, read-recorded, read-recorded_long}
use mocking_box.Tests.Samples.{plain}

abbrev meta_of : GoString → Meta
meta_of upstream = record {
  kind = str "meta";
  version = 1;
  created_at = str "now";
  upstream = upstream;
  serialized = false;
  source = [];
}

abbrev entry_of : GoString → Entry plain
entry_of name = record {
  name = name;
  ts = name;
  method = str "GET";
  path = str "/";
  headers = [];
  body = null;
  expected = record { status = pos 200; body = []; writeset = none };
}

abbrev type_of : GoString → Result GoString
type_of [] = fail (str "empty")
type_of (c ∷ line) = if c == b'm' then ok (str "meta") else ok (str "entry")

abbrev tail : GoString → GoString
tail [] = []
tail (c ∷ line) = line

abbrev format : Format plain
format = record {
  meta_line = λ m. ok (b'm' ∷ m.upstream);
  entry_line = λ e. ok (b'e' ∷ e.name);
  line_type = type_of;
  read_meta = λ line m. ok (meta_of (tail line));
  read_entry = λ line. ok (entry_of (tail line));
}

abbrev unfinished : Meta
unfinished = record {
  kind = [];
  version = 0;
  created_at = [];
  upstream = str "old";
  serialized = false;
  source = [];
}

abbrev entries : List (Entry plain)
entries = entry_of (str "2") ∷ entry_of (str "1") ∷ []

read-recorded_example :
    and_then
      (recorded format (str "now") unfinished entries)
      (λ file. read format (str "g") file none)
    ≡ ok (first_meta (str "now") unfinished, sort_by (λ e. e.ts) entries)
unfolding first_meta trim_space eqs
read-recorded_example =
    read-recorded format (str "g") (str "now") unfinished entries
      (str "mold", (refl, ((refl, (refl, omega arith)), (refl, refl))))
      (
        (str "e2", (refl, ((refl, (refl, omega arith)), (refl, refl)))),
        ((str "e1", (refl, ((refl, (refl, omega arith)), (refl, refl)))), tt),
      )

repeat : ℕ → GoString
repeat zero = []
repeat (suc n) = b'x' ∷ repeat n

length-repeat : (n : ℕ) → length (repeat n) ≡ n
unfolding repeat
length-repeat zero = refl
length-repeat (suc n) = ap suc (length-repeat n)

-- A line of 4 MiB.
long_line : GoString
long_line = repeat max_line

long_line-length : max_line ≤ length long_line
unfolding long_line
long_line-length = omega (arith, length-repeat max_line)

-- The format with the long line for one of the entries.
abbrev long_format : Format plain
long_format = record format {
  entry_line = λ e. if eqs (e.name) (str "9") then ok long_line else ok (b'e' ∷ e.name);
}

read-recorded_long_example :
    (file : List GoString) × ((recorded long_format
          (str "now")
          unfinished
          (entries ++ entry_of (str "9") ∷ entry_of (str "3") ∷ [])
        ≡ ok file)
      × (read long_format (str "g") file none ≡ fail too_long))
unfolding first_meta trim_space eqs
read-recorded_long_example =
    read-recorded_long long_format (str "g") (str "now") unfinished entries
      (entry_of (str "3") ∷ []) (entry_of (str "9")) long_line
      (str "mold", (refl, ((refl, (refl, omega arith)), (refl, refl))))
      (
        (str "e2", (refl, ((refl, (refl, omega arith)), (refl, refl)))),
        ((str "e1", (refl, ((refl, (refl, omega arith)), (refl, refl)))), tt),
      )
      ((str "e3", refl), tt) refl long_line-length
