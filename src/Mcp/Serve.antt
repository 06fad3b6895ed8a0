-- ===== src/Mcp/Serve.antt =====
-- The protocol of internal/mcp/mcp.go: `Run`, `dispatch`, `callTool` and `reply`. The decoding of a line
-- into a request is a parameter; a reply's JSON is told by its kind.
use mocking_box.Prelude.{
  List, [], ◌∷◌, ◌++◌, Option, none, some, if◌then◌else◌, GoString, str, eqs, trim_space, Result,
  ok, fail,
}
use mocking_box.Diff.Value.{Numerics, Fields}
use mocking_box.Mcp.Tools.{Dashboard}
use mocking_box.Mcp.Calls.{History, run_tool}

-- `rpcRequest`, with the decoded parameters of a tool call; the id is its raw text, if there is one.
pub record Request (N : Numerics) : Type 0 where
  pub id : Option GoString
  pub method : GoString
  pub tool : GoString
  pub arguments : Fields N

-- The result of a reply, or its error.
pub data Body : Type 0 where
  initialized listed pong : Body
  tool_text : GoString → Body
  tool_error : GoString → Body
  not_found : GoString → Body

-- The cases of `dispatch`
pub data Method : Type 0 where
  initialize notification list_tools call_tool ping other : Method

unfoldable pub method_named : GoString → Method
unfolding eqs
method_named m =
    if eqs m (str "initialize")
    then initialize
    else if eqs m (str "notifications/initialized")
    then notification
    else if eqs m (str "notifications/cancelled")
    then notification
    else if eqs m (str "tools/list")
    then list_tools
    else if eqs m (str "tools/call")
    then call_tool
    else if eqs m (str "ping")
    then ping
    else other

-- A reply that is written: the request's id, absent or not, and the rest.
abbrev pub Reply : Type 0
Reply = Option GoString × Body

module _ {N : Numerics} (D : Dashboard N) where
  -- The content of the reply
  unfoldable pub tool_body : Result GoString → Body
  tool_body (ok t) = tool_text t
  tool_body (fail e) = tool_error (str "error: " ++ e)

  -- `callTool`
  unfoldable pub call_reply : Request N → History D → List Reply × History D
  unfolding tool_body run_tool
  call_reply req h = go (run_tool D (req.tool) (req.arguments) h)
    where
      go : Result GoString × History D → List Reply × History D
      go (r, h') = ((req.id, tool_body r) ∷ [], h')

  -- The reply to an unknown method
  unfoldable pub unknown_reply : Option GoString → GoString → List Reply
  unknown_reply none method = []
  unknown_reply (some id) method = (some id, not_found method) ∷ []

  -- `dispatch`, by the case of the method
  unfoldable pub dispatch_case : Method → Request N → History D → List Reply × History D
  unfolding call_reply unknown_reply
  dispatch_case initialize req h = ((req.id, initialized) ∷ [], h)
  dispatch_case notification req h = ([], h)
  dispatch_case list_tools req h = ((req.id, listed) ∷ [], h)
  dispatch_case call_tool req h = call_reply req h
  dispatch_case ping req h = ((req.id, pong) ∷ [], h)
  dispatch_case other req h = (unknown_reply (req.id) (req.method), h)

  -- `dispatch`
  unfoldable pub dispatch : Request N → History D → List Reply × History D
  unfolding dispatch_case method_named
  dispatch req h = dispatch_case (method_named (req.method)) req h

  module _ (parse : GoString → Option (Request N)) where
    -- The request of a line: none for a blank one and for one that does not parse
    unfoldable pub request_of : GoString → Option (Request N)
    unfolding trim_space
    request_of line = go (trim_space line)
      where
        go : GoString → Option (Request N)
        go [] = none
        go (c ∷ text) = parse (c ∷ text)

    -- What a line is answered with
    unfoldable pub served : Option (Request N) → History D → List Reply × History D
    unfolding dispatch
    served none h = ([], h)
    served (some req) h = dispatch req h

    -- The loop of `Run`: the replies of the lines, in their order.
    unfoldable pub serve : List GoString → History D → List Reply × History D
    unfolding request_of served
    serve [] h = ([], h)
    serve (line ∷ lines) h =
        let (out, h') = served (request_of line) h in
        let (outs, h'') = serve lines h' in (out ++ outs, h'')
