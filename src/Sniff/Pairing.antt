-- ===== src/Sniff/Pairing.antt =====
-- The pairing of requests and responses of internal/sniff/sniff.go: `pairer`, first in first out on
-- each connection. HTTP messages are what net/http parsed; `unmarshal` is json.Unmarshal into `any`.
pub mod Fifo
use mocking_box.Prelude.{
  ℕ, Bool, true, false, List, [], ◌∷◌, ◌++◌, Option, none, some, if◌then◌else◌, GoString, str, eqs,
  to_lower, any, get, put, ◌||◌,
}
use mocking_box.Diff.Value.{Numerics, Value, null, string}

abbrev pub Headers : Type 0
Headers = List (GoString × GoString)

-- `http.Request`: a header name with the first of its values.
pub record HttpRequest : Type 0 where
  pub method : GoString
  pub url_path : GoString
  pub raw_query : GoString
  pub header : Headers

pub record PendingRequest (N : Numerics) : Type 0 where
  pub ts : ℕ
  pub method : GoString
  pub path : GoString
  pub headers : Headers
  pub body : Value N

pub record PendingResponse : Type 0 where
  pub status : ℕ
  pub body : GoString

pub record Exchange (N : Numerics) : Type 0 where
  pub ts : ℕ
  pub method : GoString
  pub path : GoString
  pub headers : Headers
  pub body : Value N
  pub status : ℕ
  pub resp_body : GoString

pub record Conn (N : Numerics) : Type 0 where
  pub requests : List (PendingRequest N)
  pub responses : List PendingResponse

abbrev pub Conns : Numerics → Type 0
Conns N = List (GoString × Conn N)

-- A message that a stream's goroutine parsed, with its connection.
pub data Event (N : Numerics) : Type 0 where
  request : GoString → PendingRequest N → Event N
  response : GoString → PendingResponse → Event N

-- `skipHeaders`
abbrev pub skip_headers : List GoString
skip_headers =
    str "host" ∷ str "content-length" ∷ str "connection" ∷ str "accept-encoding" ∷ str "cookie" ∷ []

-- Is the lower-case name in `skipHeaders`?
unfoldable pub skipped : GoString → Bool
unfolding eqs
skipped name = any (eqs name) skip_headers

-- The loop over `req.Header`.
unfoldable pub kept_headers : Headers → Headers → Headers
unfolding to_lower skipped put
kept_headers [] headers = headers
kept_headers ((k, v) ∷ header) headers =
    kept_headers header (if skipped (to_lower k) then headers else put (to_lower k) v headers)

-- `req.URL.Path` with the query, if there is one.
unfoldable pub request_path : HttpRequest → GoString
request_path req = go (req.raw_query)
  where
    go : GoString → GoString
    go [] = req.url_path
    go (c ∷ query) = req.url_path ++ (str "?" ++ (c ∷ query))

module _ {N : Numerics} where
  or_text : GoString → Option (Value N) → Value N
  or_text body none = string body
  or_text body (some parsed) = parsed

  -- `parsedBody`: JSON where the body parses, else its text; nil where it is empty.
  unfoldable pub parsed_body : (GoString → Option (Value N)) → GoString → Value N
  unfolding or_text
  parsed_body unmarshal [] = null
  parsed_body unmarshal (c ∷ body) = or_text (c ∷ body) (unmarshal (c ∷ body))

  abbrev pub exchange : PendingRequest N → PendingResponse → Exchange N
  exchange req resp = record {
    ts = req.ts;
    method = req.method;
    path = req.path;
    headers = req.headers;
    body = req.body;
    status = resp.status;
    resp_body = resp.body;
  }

  -- `match`: what goes to the sink, and what stays queued.
  unfoldable pub match_queues :
      List (PendingRequest N) → List PendingResponse → List (Exchange N) × Conn N
  match_queues [] ps = ([], record { requests = []; responses = ps })
  match_queues (q ∷ qs) [] = ([], record { requests = q ∷ qs; responses = [] })
  match_queues (q ∷ qs) (p ∷ ps) = let (out, c) = match_queues qs ps in (exchange q p ∷ out, c)

  abbrev pub new_conn : Conn N
  new_conn = record { requests = []; responses = [] }

  or_new : Option (Conn N) → Conn N
  or_new none = new_conn
  or_new (some c) = c

  -- `get`, whose new entry the caller stores.
  unfoldable pub conn_at : GoString → Conns N → Conn N
  unfolding get or_new
  conn_at key conns = or_new (get key conns)

  -- `p.match(c)` for the connection of the key.
  unfoldable pub settle : GoString → Conn N → Conns N → List (Exchange N) × Conns N
  unfolding match_queues put
  settle key c conns =
      let (out, c') = match_queues (c.requests) (c.responses) in (out, put key c' conns)

  unfoldable pub pending_request :
      (GoString → Option (Value N)) → HttpRequest → GoString → ℕ → PendingRequest N
  unfolding request_path kept_headers parsed_body
  pending_request unmarshal req body now = record {
    ts = now;
    method = req.method;
    path = request_path req;
    headers = kept_headers (req.header) [];
    body = parsed_body unmarshal body;
  }

  abbrev push_request : PendingRequest N → Conn N → Conn N
  push_request q c = record { requests = c.requests ++ q ∷ []; responses = c.responses }

  abbrev push_response : PendingResponse → Conn N → Conn N
  push_response p c = record { requests = c.requests; responses = c.responses ++ p ∷ [] }

  unfoldable pub add_request : GoString → PendingRequest N → Conns N → List (Exchange N) × Conns N
  unfolding conn_at settle
  add_request key q conns = settle key (push_request q (conn_at key conns)) conns

  unfoldable pub add_response : GoString → PendingResponse → Conns N → List (Exchange N) × Conns N
  unfolding conn_at settle
  add_response key p conns = settle key (push_response p (conn_at key conns)) conns

  unfoldable pub step : Event N → Conns N → List (Exchange N) × Conns N
  unfolding add_request add_response
  step (request key q) conns = add_request key q conns
  step (response key p) conns = add_response key p conns
