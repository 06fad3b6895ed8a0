-- ===== src/Agent/Reporter.antt =====
-- The reporter of internal/agent/agent.go, the link of a collector to the dashboard. The dashboard's answers
-- and the reading of the recording are inputs; a post is told by its path and what it carries.
use mocking_box.Prelude.{
  ℕ, zero, suc, Bool, true, false, List, [], ◌∷◌, ◌++◌, Option, none, some, if◌then◌else◌, GoString,
  eqs, Result, ok, fail,
}

pub data State : Type 0 where
  capturing done : State

-- `Reporter`
pub record Reporter : Type 0 where
  pub id : GoString
  pub state : State
  pub count : ℕ
  pub last_err : GoString
  pub stopped : Bool

-- `registerReq`
pub record Registration : Type 0 where
  pub name : GoString
  pub mode : GoString
  pub version : GoString
  pub out : GoString

-- The posts, by their paths
pub data Post : Type 0 where
  register : Registration → Post
  heartbeat : GoString → State → ℕ → GoString → Post
  upload : GoString → GoString → GoString → Post

-- The registration that `Connect` posts
unfoldable pub registration : GoString → Registration → Registration
unfolding eqs
registration hostname req = record req { name = if eqs (req.name) [] then hostname else req.name }

registered : Result (Option GoString) → Option Reporter
registered (fail e) = none
registered (ok none) = none
registered (ok (some [])) = none
registered (ok (some (c ∷ id))) =
    some (record { id = c ∷ id; state = capturing; count = 0; last_err = []; stopped = false })

-- `Connect`, with the id of the answer, if it decodes; none where the collector stands alone
unfoldable pub connect :
    GoString
    → GoString
    → Registration
    → (Registration → Result (Option GoString))
    → List Post × Option Reporter
unfolding registration registered
connect [] hostname req answer = ([], none)
connect (c ∷ dashboard) hostname req answer =
    let sent = registration hostname req in (register sent ∷ [], registered (answer sent))

-- `post` gives an error for a refused request and for a status of 400 and above.
unfoldable pub update : ℕ → GoString → Option Reporter → Option Reporter
update count last_err none = none
update count last_err (some r) = some (record r { count = count; last_err = last_err })

-- `beat`, whose error is dropped
unfoldable pub beat : Reporter → List Post
beat r = heartbeat (r.id) (r.state) (r.count) (r.last_err) ∷ []

uploaded : Reporter → GoString → Result GoString → List Post
uploaded r name (fail e) = []
uploaded r name (ok raw) = upload (r.id) name raw ∷ []

-- `Finish`, with the base of the path and the recording's bytes
unfoldable pub finish : GoString → Result GoString → Option Reporter → List Post × Option Reporter
unfolding beat uploaded
finish name file none = ([], none)
finish name file (some r) =
    let r' = record r { state = done } in
    (beat r' ++ uploaded r' name file, some (record r' { stopped = true }))

-- The loop of `heartbeatLoop` over so many ticks before it stops
unfoldable pub heartbeats : ℕ → Reporter → List Post
unfolding beat
heartbeats zero r = beat r
heartbeats (suc ticks) r = beat r ++ heartbeats ticks r
