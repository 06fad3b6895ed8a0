-- ===== src/Diff/Response.antt =====
-- The response diff of internal/diff/diff.go: `tryJSON`, `diffJSON` and `DiffResponses`.
pub mod Agreement
pub mod Same
use mocking_box.Prelude.{
  ℕ, zero, suc, ◌+◌, Bool, true, false, not, ◌||◌, ◌&&◌, ◌==◌, List, [], ◌∷◌, ◌++◌, Option, none,
  some, if◌then◌else◌, GoString, str, eqs, join, itoa, length, sort_strings, ℤ, pos, int_eq,
}
use mocking_box.Diff.Value.{
  Numerics, Value, null, string, sized, int, array, object, Items, nil, cons, Fields, end, field,
  items, keys, norm_value, lookup,
}
use mocking_box.Diff.Keys.{union}
use mocking_box.Diff.Canonical.{equal}
use mocking_box.Diff.Strip.{strip_noise}
use mocking_box.Diff.SortArrays.{SortRule, sort_arrays}

pub record Difference (N : Numerics) : Type 0 where
  pub kind : GoString
  pub path : GoString
  pub old : Value N
  pub new : Value N

abbrev pub response_kind : GoString
response_kind = str "response"

-- `absent`
abbrev pub absent : GoString
absent = str "<absent>"

-- The closure `joined`.
unfoldable pub joined : List GoString → GoString
unfolding join
joined [] = str "$"
joined (k ∷ path) = join (str ".") (k ∷ path)

-- A member of the old object: its value, and the comparison of that value with a new one.
abbrev pub Member : Numerics → Type 0
Member N = Value N × (Value N → List GoString → List (Difference N))

-- `m[k]`
unfoldable pub find {ℓ} : {A : Type ℓ} → GoString → List (GoString × A) → Option A
unfolding eqs
find k [] = none
find k ((j, m) ∷ ms) = if eqs j k then some m else find k ms

module _ {N : Numerics} where
  abbrev pub response : GoString → Value N → Value N → List (Difference N)
  response path old new = record { kind = response_kind; path = path; old = old; new = new } ∷ []

  abbrev count : ℕ → Value N
  count n = sized int (pos n)

  -- The last branch of `diffJSON`: no two objects and no two arrays.
  pub diff_leaf : Value N → Value N → List GoString → List (Difference N)
  unfolding equal joined norm_value
  diff_leaf old new path =
      if equal old new then [] else response (joined path) (norm_value old) (norm_value new)

  -- The `switch` of `diffJSON` on one key.
  pub diff_key : List GoString → Option (Member N) → Option (Value N) → List (Difference N)
  unfolding join norm_value
  diff_key child none none = response (join (str ".") child) (string absent) null
  diff_key child none (some nv) = response (join (str ".") child) (string absent) (norm_value nv)
  diff_key child (some (ov, diff)) none =
      response (join (str ".") child) (norm_value ov) (string absent)
  diff_key child (some (ov, diff)) (some nv) = diff nv child

  -- The loop over the keys of both objects.
  pub diff_keys :
      List GoString → List (GoString × Member N) → Fields N → List GoString → List (Difference N)
  unfolding find diff_key lookup
  diff_keys [] olds news path = []
  diff_keys (k ∷ ks) olds news path =
      diff_key (path ++ k ∷ []) (find k olds) (lookup k news) ++ diff_keys ks olds news path

  all_keys : Fields N → Fields N → List GoString
  unfolding union sort_strings
  all_keys old new = sort_strings (union (keys old) (keys new))

  diff_length : Items N → Items N → List GoString → List (Difference N)
  unfolding joined
  diff_length xs ys path =
      if length (items xs) == length (items ys)
      then []
      else response (joined path ++ str ".length") (count (length (items xs)))
          (count (length (items ys)))

  -- `diffJSON`: the differences that it appends to `out`
  unfoldable mutual
    unfolding diff_leaf diff_keys diff_length all_keys

    pub diff_json : Value N → Value N → List GoString → List (Difference N)
    diff_json (object fs) (object gs) path = diff_keys (all_keys fs gs) (members fs) gs path
    diff_json (array xs) (array ys) path = diff_length xs ys path ++ diff_items xs ys path 0
    diff_json old new path = diff_leaf old new path

    pub diff_items : Items N → Items N → List GoString → ℕ → List (Difference N)
    diff_items (cons x xs) (cons y ys) path i =
        diff_json x y (path ++ itoa i ∷ []) ++ diff_items xs ys path (i + 1)
    diff_items xs ys path i = []

    pub members : Fields N → List (GoString × Member N)
    members end = []
    members (field k v fs) = (k, (v, λ w path. diff_json v w path)) ∷ members fs

  is_container : Value N → Bool
  is_container (object fs) = true
  is_container (array xs) = true
  is_container v = false

  -- `tryJSON`
  parsed_json : Option (Value N) → Value N × Bool
  unfolding is_container
  parsed_json none = (null, false)
  parsed_json (some v) = (v, is_container v)

-- `Options`
pub record Options : Type 0 where
  pub noise_paths : List GoString
  pub compare_headers : List GoString
  pub sort_rules : List SortRule

-- A status, a body and its headers.
pub record Response : Type 0 where
  pub status : ℤ
  pub body : GoString
  pub headers : List (GoString × GoString)

abbrev or_empty : Option GoString → GoString
or_empty none = []
or_empty (some s) = s

module _ {N : Numerics} (unmarshal : GoString → Option (Value N)) where
  diff_status : ℤ → ℤ → List (Difference N)
  diff_status old new =
      if int_eq old new then [] else response (str "status") (sized int old) (sized int new)

  -- The loop over `opts.CompareHeaders`.
  diff_headers :
      List GoString → List (GoString × GoString) → List (GoString × GoString) → List (Difference N)
  unfolding find
  diff_headers [] old new = []
  diff_headers (h ∷ hs) old new =
      let ov = or_empty (find h old) in
      let nv = or_empty (find h new) in
      (if eqs ov nv then [] else response (str "header." ++ h) (string ov) (string nv))
      ++ diff_headers hs old new

  -- The closure `normalize`.
  normalize : Options → Value N → Value N
  unfolding strip_noise sort_arrays
  normalize opts v = sort_arrays opts.sort_rules (strip_noise opts.noise_paths v)

  diff_bodies : Options → GoString → GoString → List (Difference N)
  unfolding normalize parsed_json diff_json
  diff_bodies opts old new =
      let (old_parsed, old_is_json) = parsed_json (unmarshal old) in
      let (new_parsed, new_is_json) = parsed_json (unmarshal new) in
      if old_is_json || new_is_json
      then diff_json (normalize opts old_parsed) (normalize opts new_parsed) []
      else if eqs old new
      then []
      else response (str "body") (string old) (string new)

  -- `DiffResponses`
  unfoldable pub diff_responses : Response → Response → Options → List (Difference N)
  unfolding diff_status diff_headers diff_bodies int_eq
  diff_responses old new opts =
      diff_status old.status new.status
      ++ (diff_headers opts.compare_headers old.headers new.headers
          ++ diff_bodies opts old.body new.body)
