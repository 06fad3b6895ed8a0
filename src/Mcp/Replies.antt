-- ===== src/Mcp/Replies.antt =====
-- The replies of a session of the MCP server.
use mathlib.Core.List.{map-append}
use mocking_box.Prelude.{◌≡◌, refl, ◌∙◌, List, [], ◌∷◌, ◌++◌, map, Option, none, some, GoString}
use mocking_box.Diff.Value.{Numerics}
use mocking_box.Mcp.Tools.{Dashboard}
use mocking_box.Mcp.Calls.{History}
use mocking_box.Mcp.Serve.{
  Request, Method, initialize, notification, list_tools, call_tool, ping, other, method_named,
  Reply, call_reply, unknown_reply, dispatch_case, dispatch, request_of, served, serve,
}

-- The ids that answer a request: its own, unless it is one of the two notifications or an unknown method
-- without an id.
abbrev pub answered : Method → Option GoString → List (Option GoString)
answered notification id = []
answered other none = []
answered m id = id ∷ []

abbrev pub answers : {N : Numerics} → Option (Request N) → List (Option GoString)
answers none = []
answers (some req) = answered (method_named (req.method)) (req.id)

abbrev pub ids : List Reply → List (Option GoString)
ids = map (λ r. r.0)

module _ {N : Numerics} (D : Dashboard N) (parse : GoString → Option (Request N)) where
  -- What the lines of a session are answered with.
  abbrev pub expected : List GoString → List (Option GoString)
  expected [] = []
  expected (line ∷ lines) = answers (request_of D parse line) ++ expected lines

  dispatch_case-ids :
      (m : Method) (req : Request N) (h : History D)
      → ids ((dispatch_case D m req h).0) ≡ answered m (req.id)
  unfolding dispatch_case call_reply unknown_reply
  dispatch_case-ids initialize req h = refl
  dispatch_case-ids notification req h = refl
  dispatch_case-ids list_tools req h = refl
  dispatch_case-ids call_tool req h = refl
  dispatch_case-ids ping req h = refl
  dispatch_case-ids other req h = go (req.id)
    where
      go : (id : Option GoString) → ids (unknown_reply D id (req.method)) ≡ answered other id
      go none = refl
      go (some id) = refl

  served-ids : (r : Option (Request N)) (h : History D) → ids ((served D parse r h).0) ≡ answers r
  unfolding served dispatch
  served-ids none h = refl
  served-ids (some req) h = dispatch_case-ids (method_named (req.method)) req h

  -- A session replies to every line that holds a request once and in the order of the lines, with the
  -- id of the request, but not to the two notifications, to an unknown method without an id, or to a line
  -- that holds no request.
  pub serve-ids :
      (lines : List GoString) (h : History D) → ids ((serve D parse lines h).0) ≡ expected lines
  unfolding serve
  serve-ids [] h = refl
  serve-ids (line ∷ lines) h =
      let r = request_of D parse line in
      map-append _ ((served D parse r h).0) ((serve D parse lines ((served D parse r h).1)).0)
      ∙ rw (served-ids r h, serve-ids lines ((served D parse r h).1)) refl
