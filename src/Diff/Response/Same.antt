-- ===== src/Diff/Response/Same.antt =====
-- What the diffs of internal/diff/diff.go make of equal responses and of equal write-sets.
use mocking_box.Prelude.{
  ◌≡◌, refl, Bool, true, false, ◌||◌, List, [], Option, some, if◌then◌else◌, GoString, eqs,
  eqs_refl, str, int_eq_iff,
}
use mocking_box.Diff.Value.{
  Numerics, Value, null, bool, int64, sized, float64, float32, decimal, string, bytes, opaque,
  array, object, Items, nil, cons, Fields, end, field, lookup,
}
use mocking_box.Diff.Canonical.{equal_refl}
use mocking_box.Diff.Response.{
  Response, Options, diff_json, diff_status, diff_headers, diff_bodies, diff_responses, parsed_json,
  normalize, response,
}
use mocking_box.Diff.Response.Agreement.{
  Agrees, leaves, arrays, objects, AgreesAt, missing, present, AgreesAll, stop, next, diff_json_iff,
}

if_same {ℓ} :
    {A : Type ℓ} (b c : Bool) (x y : List A)
    → x ≡ []
    → c ≡ true
    → (if b then x else if c then [] else y) ≡ []
if_same true c x y h e = h
if_same false true x y h e = refl
if_same false false x y h e = cc

module _ {N : Numerics} where
  AgreesAt-if :
      (b : Bool) (v : Value N) (o : Option (Value N))
      → Agrees N v v
      → AgreesAt N o o
      → AgreesAt N (if b then some v else o) (if b then some v else o)
  AgreesAt-if true v o h k = present h
  AgreesAt-if false v o h k = k

  mutual
    unfolding lookup

    -- A value agrees with itself.
    pub Agrees-refl : (v : Value N) → Agrees N v v
    Agrees-refl null = leaves refl (equal_refl null)
    Agrees-refl (bool b) = leaves refl (equal_refl (bool b))
    Agrees-refl (int64 z) = leaves refl (equal_refl (int64 z))
    Agrees-refl (sized t z) = leaves refl (equal_refl (sized t z))
    Agrees-refl (float64 x) = leaves refl (equal_refl (float64 x))
    Agrees-refl (float32 x) = leaves refl (equal_refl (float32 x))
    Agrees-refl (decimal x) = leaves refl (equal_refl (decimal x))
    Agrees-refl (string s) = leaves refl (equal_refl (string s))
    Agrees-refl (bytes s) = leaves refl (equal_refl (bytes s))
    Agrees-refl (opaque x) = leaves refl (equal_refl (opaque x))
    Agrees-refl (array vs) = arrays (AgreesAll-refl vs)
    Agrees-refl (object fs) = objects (AgreesAt-refl fs)

    AgreesAll-refl : (vs : Items N) → AgreesAll N vs vs
    AgreesAll-refl nil = stop
    AgreesAll-refl (cons v vs) = next (Agrees-refl v) (AgreesAll-refl vs)

    AgreesAt-refl : (fs : Fields N) (k : GoString) → AgreesAt N (lookup k fs) (lookup k fs)
    AgreesAt-refl end k = missing
    AgreesAt-refl (field j v fs) k =
        AgreesAt-if (eqs j k) v (lookup k fs) (Agrees-refl v) (AgreesAt-refl fs k)

  pub diff_json-same : (v : Value N) (path : List GoString) → diff_json v v path ≡ []
  diff_json-same v path = (diff_json_iff v v path).1 (Agrees-refl v)

  module _ (unmarshal : GoString → Option (Value N)) where
    diff_bodies-same :
        (opts : Options) (body : GoString) → diff_bodies unmarshal opts body body ≡ []
    unfolding diff_bodies
    diff_bodies-same opts body =
        let (value, is_json) = parsed_json (unmarshal body) in
        let shown = normalize unmarshal opts value in
        if_same (is_json || is_json) (eqs body body) (diff_json shown shown [])
          (response (str "body") (string body) (string body)) (diff_json-same shown [])
          (eqs_refl body)

    -- Two responses of one status and body do not differ if no headers are compared.
    pub diff_responses-same :
        (opts : Options) (old new : Response)
        → opts.compare_headers ≡ []
        → old.status ≡ new.status
        → old.body ≡ new.body
        → diff_responses unmarshal old new opts ≡ []
    unfolding diff_responses diff_status diff_headers
    diff_responses-same opts old new plain status body =
        rw (plain, status, body, (int_eq_iff (new.status) (new.status)).1 refl)
          (diff_bodies-same opts (new.body))
