-- ===== src/Ui/Registry.antt =====
-- The agent registry of internal/ui/agents.go: registration, heartbeats, the list, commands and the
-- upload of recordings, after the JSON of a request is decoded. Times are in nanoseconds; the order
-- in which `agentList` visits the map is the list's.
pub mod Delivery
use mocking_box.Prelude.{
  ℕ, suc, ◌+◌, ◌-◌, ◌*◌, ◌/◌, Bool, true, false, not, ◌&&◌, ◌||◌, List, [], ◌∷◌, ◌++◌, map, Option,
  none, some, ltb, leb, ◌==◌, if◌then◌else◌, all, keep, GoString, str, eqs, get, put, itoa,
  has_suffix, trim_space, length,
}
use mocking_box.Diff.Value.{Numerics, Value, string}
use mocking_box.Golden.{is_golden_file}

-- A queued command: a decoded JSON object.
abbrev pub Command : Numerics → Type 0
Command N = List (GoString × Value N)

-- What an agent reports of itself.
pub record Report (N : Numerics) : Type 0 where
  pub state : GoString
  pub count : ℕ
  pub current : GoString
  pub remain_sec : ℕ
  pub recordings : List (Value N)
  pub capture_ok : Bool
  pub capture_detail : GoString
  pub iface : GoString
  pub last_error : GoString

pub record AgentRecord (N : Numerics) : Type 0 where
  pub name : GoString
  pub mode : GoString
  pub version : GoString
  pub out : GoString
  pub report : Report N
  pub remote : GoString
  pub first_seen : ℕ
  pub last_seen : ℕ
  pub commands : List (Command N)

pub record Registry (N : Numerics) : Type 0 where
  pub agents : List (GoString × AgentRecord N)
  pub seq : ℕ

-- A JSON answer, or `jsonError` with a status.
pub data Reply {ℓ} (A : Type ℓ) : Type ℓ where
  reply : A → Reply A
  json_error : ℕ → GoString → Reply A

-- `checkToken`
unfoldable pub check_token : GoString → GoString → Bool
unfolding eqs
check_token token header = eqs token [] || eqs header token

abbrev pub unauthorized {ℓ} : {A : Type ℓ} → Reply A
unauthorized = json_error 401 (str "invalid token")

-- The body of a registration.
pub record Registration : Type 0 where
  pub name : GoString
  pub mode : GoString
  pub version : GoString
  pub out : GoString

-- `agent-%d`
unfoldable pub agent_id : ℕ → GoString
unfolding itoa
agent_id seq = str "agent-" ++ itoa seq

-- `delete(m, k)`
unfoldable pub delete {ℓ} : {A : Type ℓ} → GoString → List (GoString × A) → List (GoString × A)
unfolding eqs
delete k m = keep (λ e. not (eqs (e.0) k)) m

module _ {N : Numerics} where
  new_record : Registration → GoString → ℕ → AgentRecord N
  new_record req remote now = record {
    name = req.name;
    mode = req.mode;
    version = req.version;
    out = req.out;
    report = record {
      state = str "capturing";
      count = 0;
      current = [];
      remain_sec = 0;
      recordings = [];
      capture_ok = false;
      capture_detail = [];
      iface = [];
      last_error = [];
    };
    remote = remote;
    first_seen = now;
    last_seen = now;
    commands = [];
  }

  -- `agentRegister`
  unfoldable pub agent_register :
      Bool → Registration → GoString → ℕ → Registry N → Reply GoString × Registry N
  unfolding agent_id new_record put
  agent_register authorized req remote now r =
      if authorized
      then (let id = agent_id (suc (r.seq)) in
          (
            reply id,
            record { agents = put id (new_record req remote now) (r.agents); seq = suc (r.seq) },
          ))
      else (unauthorized, r)

  -- The record after a heartbeat, its commands handed off.
  reported : Report N → ℕ → AgentRecord N → AgentRecord N
  reported report now a = record {
    name = a.name;
    mode = a.mode;
    version = a.version;
    out = a.out;
    report = report;
    remote = a.remote;
    first_seen = a.first_seen;
    last_seen = now;
    commands = [];
  }

  hand_off :
      GoString → Report N → ℕ → Registry N → Option (AgentRecord N) → List (Command N) × Registry N
  unfolding reported put
  hand_off id report now r none = ([], r)
  hand_off id report now r (some a) =
      (a.commands, record { agents = put id (reported report now a) (r.agents); seq = r.seq })

  -- `agentHeartbeat` of an authorized agent: the commands of the answer
  unfoldable pub heartbeat : GoString → Report N → ℕ → Registry N → List (Command N) × Registry N
  unfolding get hand_off
  heartbeat id report now r = hand_off id report now r (get id (r.agents))

  -- `agentHeartbeat`
  unfoldable pub agent_heartbeat :
      Bool → GoString → Report N → ℕ → Registry N → Reply (List (Command N)) × Registry N
  unfolding heartbeat
  agent_heartbeat authorized id report now r =
      if authorized
      then (let (commands, r') = heartbeat id report now r in (reply commands, r'))
      else (unauthorized, r)

  queued : Command N → AgentRecord N → AgentRecord N
  queued cmd a = record {
    name = a.name;
    mode = a.mode;
    version = a.version;
    out = a.out;
    report = a.report;
    remote = a.remote;
    first_seen = a.first_seen;
    last_seen = a.last_seen;
    commands = a.commands ++ cmd ∷ [];
  }

  -- `cmd["id"].(string)`, empty where there is none
  unfoldable pub command_id : Command N → GoString
  unfolding get
  command_id cmd = go (get (str "id") cmd)
    where
      go : Option (Value N) → GoString
      go (some (string s)) = s
      go v = []

  enqueue : GoString → Command N → Registry N → Option (AgentRecord N) → Reply Bool × Registry N
  unfolding delete queued put
  enqueue id cmd r none = (json_error 404 (str "unknown agent"), r)
  enqueue id cmd r (some a) = (
    reply true,
    record { agents = put id (queued (delete (str "id") cmd) a) (r.agents); seq = r.seq },
  )

  -- `agentCommand`
  unfoldable pub agent_command : Command N → Registry N → Reply Bool × Registry N
  unfolding command_id get enqueue
  agent_command cmd r = let id = command_id cmd in enqueue id cmd r (get id (r.agents))

abbrev pub second : ℕ
second = 1000000000

-- The health of an agent last seen `fresh` nanoseconds ago.
unfoldable pub health : ℕ → GoString
health fresh =
    if ltb (120 * second) fresh
    then str "red"
    else if ltb (30 * second) fresh
    then str "yellow"
    else str "green"

-- An entry of `agentList`: the id, the record, the seconds since it was seen, and its health.
pub record Listed (N : Numerics) : Type 0 where
  pub id : GoString
  pub agent : AgentRecord N
  pub last_seen_s : ℕ
  pub health : GoString

-- `agentList`
unfoldable pub agent_list : {N : Numerics} → ℕ → Registry N → List (Listed N)
unfolding health
agent_list now r =
    map
      (λ e. record {
        id = e.0;
        agent = e.1;
        last_seen_s = (now - e.1.last_seen) / second;
        health = health (now - e.1.last_seen);
      })
      (r.agents)

-- A byte of `corpusNamePattern`.
unfoldable pub is_name_byte : ℕ → Bool
is_name_byte c =
    (leb b'a' c && leb c b'z')
    || ((leb b'A' c && leb c b'Z')
        || ((leb b'0' c && leb c b'9') || ((c == b'.') || ((c == b'_') || (c == b'-')))))

-- `corpusNamePattern.MatchString(name)`
unfoldable pub is_corpus_name : GoString → Bool
unfolding is_name_byte
is_corpus_name [] = false
is_corpus_name (c ∷ name) = is_name_byte c && all is_name_byte name

-- A saved recording: its name and bytes, and whether it is a golden.
pub record Saved : Type 0 where
  pub name : GoString
  pub bytes : GoString
  pub golden : Bool

-- `saveRecording` where the directory and the file can be written; `base` is filepath.Base, and the
-- body is none where it could not be read.
unfoldable pub save_recording : (GoString → GoString) → GoString → Option GoString → Reply Saved
unfolding trim_space has_suffix is_corpus_name is_golden_file
save_recording base requested body =
    let name = base (trim_space requested) in
    if not (is_corpus_name name)
      || not (has_suffix name (str ".jsonl") || has_suffix name (str ".har"))
    then json_error 400 (str "invalid recording name (.jsonl/.golden.jsonl/.har)")
    else go name body
  where
    go : GoString → Option GoString → Reply Saved
    go name none = json_error 400 (str "empty body")
    go name (some []) = json_error 400 (str "empty body")
    go name (some (b ∷ raw)) =
        reply (record { name = name; bytes = b ∷ raw; golden = is_golden_file name })
