-- ===== src/Corpus/Har.antt =====
-- The HAR captures of internal/corpus/corpus.go, after json.Unmarshal: `parse_url` is url.Parse, a
-- path and a query, and `unmarshal` is json.Unmarshal into `any`.
use mocking_box.Prelude.{
  ◌≡◌, ℕ, suc, Bool, false, ◌||◌, List, [], ◌∷◌, ◌++◌, Option, none, some, if◌then◌else◌, GoString,
  str, eqs, to_lower, to_upper, has_prefix, contains, itoa, put, any, All, Bool-cases, Option-cases,
  inl, inr, refl, arith, ◌≢◌, lower, eqs-ne,
}
use mocking_box.Diff.Value.{Numerics, Value, null, string}
use mocking_box.Corpus.{RequestSpec, Headers}

pub record PostData : Type 0 where
  pub mime_type : GoString
  pub text : GoString

pub record HarRequest : Type 0 where
  pub method : GoString
  pub url : GoString
  pub headers : Headers
  pub post_data : Option PostData

-- `harSkipHeaders`
abbrev pub har_skip_headers : List GoString
har_skip_headers =
    str "host" ∷ str "content-length" ∷ str "cookie" ∷ str "connection" ∷ str "accept-encoding" ∷ []

-- Headers that are not replayed: those of the connection, and HTTP/2's pseudo headers.
unfoldable pub har_skips : GoString → Bool
unfolding eqs has_prefix
har_skips name = any (eqs name) har_skip_headers || has_prefix name (str ":")

-- The loop over `req.Headers`.
unfoldable pub har_headers : Headers → Headers → Headers
unfolding to_lower har_skips put
har_headers [] headers = headers
har_headers ((k, v) ∷ hs) headers =
    har_headers hs (if har_skips (to_lower k) then headers else put (to_lower k) v headers)

-- The path with the query, if there is one.
unfoldable pub har_path : GoString → GoString → GoString
har_path path [] = path
har_path path (c ∷ query) = path ++ (str "?" ++ (c ∷ query))

module _ {N : Numerics} (unmarshal : GoString → Option (Value N)) where
  or_string : GoString → Option (Value N) → Value N
  or_string t none = string t
  or_string t (some v) = v

  text_body : GoString → GoString → Value N
  unfolding contains or_string
  text_body mime_type [] = null
  text_body mime_type (c ∷ t) =
      if contains mime_type (str "json")
      then or_string (c ∷ t) (unmarshal (c ∷ t))
      else string (c ∷ t)

  -- `body` of a HAR request.
  unfoldable pub har_body : Option PostData → Value N
  unfolding text_body
  har_body none = null
  har_body (some p) = text_body (p.mime_type) (p.text)

  module _ (parse_url : GoString → Option (GoString × GoString)) where
    har_spec : ℕ → HarRequest → GoString × GoString → RequestSpec N
    unfolding itoa to_upper har_path har_headers har_body
    har_spec i req (path, query) = record {
      name = str "har-" ++ (itoa i ++ (str "-" ++ (req.method ++ (str "-" ++ path))));
      ts = [];
      method = to_upper (req.method);
      path = har_path path query;
      headers = har_headers (req.headers) [];
      body = har_body (req.post_data);
    }

    -- The loop of `loadHAR` over the requests, the first of which has the number `i`.
    unfoldable pub har_specs : ℕ → List HarRequest → List (RequestSpec N)
    unfolding har_spec
    har_specs i [] = []
    har_specs i (req ∷ reqs) = go (parse_url (req.url)) (har_specs (suc i) reqs)
      where
        go : Option (GoString × GoString) → List (RequestSpec N) → List (RequestSpec N)
        go none rest = rest
        go (some u) rest = har_spec i req u ∷ rest

    -- `loadHAR`
    unfoldable pub load_har : List HarRequest → List (RequestSpec N)
    unfolding har_specs
    load_har = har_specs 1

-- The name of a header that is none of five, in any case, and does not begin with a colon.
abbrev pub IsReplayed : GoString × GoString → Type 0
IsReplayed (name, value) =
    (to_lower name ≢ str "host")
    × ((to_lower name ≢ str "content-length")
        × ((to_lower name ≢ str "cookie")
            × ((to_lower name ≢ str "connection")
                × ((to_lower name ≢ str "accept-encoding")
                    × ((rest : GoString) → name ≢ b':' ∷ rest)))))

lower_idem : (c : ℕ) → lower (lower c) ≡ lower c
unfolding lower
lower_idem c = ground arith

to_lower_idem : (s : GoString) → to_lower (to_lower s) ≡ to_lower s
unfolding to_lower
to_lower_idem [] = refl
to_lower_idem (c ∷ s) = λ i. lower_idem c i ∷ to_lower_idem s i

has_prefix-ne :
    (name : GoString) → has_prefix name (str ":") ≡ false → (rest : GoString) → name ≢ b':' ∷ rest
unfolding has_prefix
has_prefix-ne [] h rest e = cc
has_prefix-ne (c ∷ name) h rest e = let k : c ≡ b':' = cc in ground (arith, h, k)

har_skips-IsReplayed :
    (k v : GoString) → har_skips (to_lower k) ≡ false → IsReplayed (to_lower k, v)
unfolding har_skips
har_skips-IsReplayed k v h = rw (to_lower_idem k) (
  eqs-ne _ _ (ground (arith, h)),
  (
    eqs-ne _ _ (ground (arith, h)),
    (
      eqs-ne _ _ (ground (arith, h)),
      (
        eqs-ne _ _ (ground (arith, h)),
        (eqs-ne _ _ (ground (arith, h)), has_prefix-ne (to_lower k) (ground (arith, h))),
      ),
    ),
  ),
)

put-All {κ} :
    {A : Type 0} (P : GoString × A → Type κ) (k : GoString) (a : A) (m : List (GoString × A))
    → P (k, a)
    → All P m
    → All P (put k a m)
unfolding put
put-All P k a [] p h = (p, tt)
put-All P k a ((j, b) ∷ m) p (q, h) = elim (Bool-cases (eqs j k)) [
  | inl e ↦ rw e (p, h)
  | inr e ↦ rw e (q, put-All P k a m p h)
]

har_headers-All :
    (hs headers : Headers) → All IsReplayed headers → All IsReplayed (har_headers hs headers)
unfolding har_headers
har_headers-All [] headers h = h
har_headers-All ((k, v) ∷ hs) headers h = elim (Bool-cases (har_skips (to_lower k))) [
  | inl e ↦ rw e (har_headers-All hs headers h)
  | inr e ↦ rw e (
      har_headers-All hs (put (to_lower k) v headers)
        (put-All IsReplayed (to_lower k) v headers (har_skips-IsReplayed k v e) h))
]

module _ {N : Numerics} (unmarshal : GoString → Option (Value N))
    (parse_url : GoString → Option (GoString × GoString)) where
  har_specs-All :
      (i : ℕ) (reqs : List HarRequest)
      → All (λ s. All IsReplayed (s.headers)) (har_specs unmarshal parse_url i reqs)
  unfolding har_specs
  har_specs-All i [] = tt
  har_specs-All i (req ∷ reqs) = elim (Option-cases (parse_url (req.url))) [
    | inl e ↦ rw e (har_specs-All (suc i) reqs)
    | inr (u, e) ↦ rw e (har_headers-All (req.headers) [] tt, har_specs-All (suc i) reqs)
  ]

  -- No spec of a HAR capture carries a header whose name is, in any case, host, content-length, cookie,
  -- connection or accept-encoding, or begins with a colon, however the capture writes the name.
  pub load_har-IsReplayed :
      (reqs : List HarRequest)
      → All (λ s. All IsReplayed (s.headers)) (load_har unmarshal parse_url reqs)
  unfolding load_har
  load_har-IsReplayed reqs = har_specs-All 1 reqs
