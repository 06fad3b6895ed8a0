-- ===== src/Replay/Fire.antt =====
-- `fireStack` of internal/replay/replay.go: one request to a stack and its write changes.
use mocking_box.Prelude.{
  ℕ, ◌*◌, take, Bool, true, false, ◌&&◌, List, [], ◌∷◌, ◌++◌, Option, none, some, if◌then◌else◌,
  GoString, str, eqs, to_lower, get, put, Result, ok, fail,
}
use mocking_box.Diff.Value.{Numerics}
use mocking_box.Diff.Response.{Response}
use mocking_box.Diff.Writeset.{RowChange}
use mocking_box.Corpus.{RequestSpec, Headers, body_bytes}

-- `http.Request`; `host` is none where the URL's host is sent.
pub record Request : Type 0 where
  pub method : GoString
  pub url : GoString
  pub host : Option GoString
  pub header : Headers
  pub body : Option GoString

-- What the code calls: the canonical form of a header name, http.NewRequest's refusal of a method and
-- a URL, client.Do with the whole body, and the window of a write-set source.
pub record Services (N : Numerics) : Type 1 where
  pub State : Type 0
  pub canonical_key : GoString → GoString
  pub refusal : GoString → GoString → Option GoString
  pub send : Request → State → Result Response × State
  pub begin_window : State → State
  pub take_window : State → Result (List (RowChange N)) × State

-- `maxBodyBytes`
abbrev pub max_body_bytes : ℕ
max_body_bytes = 1024 * 1024

-- `fired`
pub record Fired (N : Numerics) : Type 0 where
  pub response : Response
  pub changes : List (RowChange N)

-- `toLower` on the names of the headers of a response
unfoldable pub lowered : Headers → Headers → Headers
unfolding to_lower put
lowered [] headers = headers
lowered ((k, v) ∷ hs) headers = lowered hs (put (to_lower k) v headers)

module _ {N : Numerics} (S : Services N) where
  -- The loop over `spec.Headers`: the host goes to its field, the others to the header.
  unfoldable pub set_headers : Headers → Request → Request
  unfolding eqs to_lower put
  set_headers [] req = req
  set_headers ((k, v) ∷ hs) req = set_headers hs (
      if eqs (to_lower k) (str "host")
      then record {
        method = req.method;
        url = req.url;
        host = some v;
        header = req.header;
        body = req.body;
      }
      else record {
        method = req.method;
        url = req.url;
        host = req.host;
        header = put (S.canonical_key k) v (req.header);
        body = req.body;
      })

  or_empty : Option GoString → GoString
  or_empty none = []
  or_empty (some v) = v

  -- The default content type of a JSON body.
  unfoldable pub with_content_type : Bool → Request → Request
  unfolding eqs get put or_empty
  with_content_type is_json req =
      let key = S.canonical_key (str "content-type") in
      if is_json && eqs (or_empty (get key (req.header))) []
      then record {
        method = req.method;
        url = req.url;
        host = req.host;
        header = put key (str "application/json") (req.header);
        body = req.body;
      }
      else req

  new_request : RequestSpec N → GoString → Option GoString → Request
  new_request spec base_url bytes = record {
    method = spec.method;
    url = base_url ++ spec.path;
    host = none;
    header = [];
    body = bytes;
  }

  -- `http.NewRequest` and what the code sets before it sends the request.
  unfoldable pub built :
      RequestSpec N → GoString → Option GoString × Bool → Option GoString → Result Request
  unfolding new_request set_headers with_content_type
  built spec base_url (bytes, is_json) (some e) = fail e
  built spec base_url (bytes, is_json) none =
      ok (with_content_type is_json (set_headers (spec.headers) (new_request spec base_url bytes)))

  -- The request of a spec, or the error that keeps it from being sent.
  unfoldable pub request_of : RequestSpec N → GoString → Result Request
  unfolding body_bytes built
  request_of spec base_url = go (body_bytes spec)
    where
      go : Result (Option GoString × Bool) → Result Request
      go (fail e) = fail e
      go (ok b) = built spec base_url b (S.refusal (spec.method) (base_url ++ spec.path))

  -- Of the body, what io.LimitReader lets through.
  fired_of : Response → List (RowChange N) → Fired N
  unfolding lowered
  fired_of resp changes = record {
    response = record {
      status = resp.status;
      body = take max_body_bytes (resp.body);
      headers = lowered (resp.headers) [];
    };
    changes = changes;
  }

  -- The window is closed, if the stack has a source.
  collect : Bool → Response → S.State → Result (Fired N) × S.State
  unfolding fired_of
  collect false resp s = (ok (fired_of resp []), s)
  collect true resp s = go (S.take_window s)
    where
      go : Result (List (RowChange N)) × S.State → Result (Fired N) × S.State
      go (ok changes, s') = (ok (fired_of resp changes), s')
      go (fail e, s') = (fail e, s')

  sent : Bool → Result Response × S.State → Result (Fired N) × S.State
  unfolding collect
  sent capture (fail e, s) = (fail e, s)
  sent capture (ok resp, s) = collect capture resp s

  -- `fireStack`; `capture` says whether the stack has a write-set source.
  unfoldable pub fire_stack : Bool → GoString → RequestSpec N → S.State → Result (Fired N) × S.State
  unfolding request_of sent
  fire_stack capture base_url spec s =
      go (request_of spec base_url) (if capture then S.begin_window s else s)
    where
      go : Result Request → S.State → Result (Fired N) × S.State
      go (fail e) s' = (fail e, s')
      go (ok req) s' = sent capture (S.send req s')
