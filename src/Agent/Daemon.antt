-- ===== src/Agent/Daemon.antt =====
-- The daemon of internal/agent/daemon.go: `startCapture`, `stopCapture`, the end of a capture's
-- goroutine, the timer and `beat`. Times are in nanoseconds; `sniff.NewOutput`, a session's counter and
-- filepath.Base are inputs. A session's number stands for the values that its goroutine and its timer
-- close over; the recordings and the upload are files and HTTP only.
use mocking_box.Prelude.{
  ℕ, suc, ◌+◌, ◌-◌, ◌*◌, ◌/◌, Bool, true, false, ◌||◌, List, [], ◌∷◌, ◌++◌, Option, none, some, ltb,
  ◌==◌, if◌then◌else◌, GoString, str, eqs,
}

pub data Action : Type 0 where
  start stop upload other : Action

-- `Command`, with the minutes that are asked for (0 where the number is not positive), without the
-- fields that only the capture itself reads (mode, interface, port, sample rate).
pub record Command : Type 0 where
  pub action : Action
  pub name : GoString
  pub duration_min : ℕ

-- `Daemon`. `session` is the newest session that `output` and `stopCap` belong to; `timer` is the
-- session that armed the auto-stop and the time when it fires, and `cancelled` are those whose context is cancelled.
pub record Daemon : Type 0 where
  pub session : ℕ
  pub cap_name : GoString
  pub running : Bool
  pub stop_at : Option ℕ
  pub timer : Option (ℕ × ℕ)
  pub cancelled : List ℕ
  pub last_err : GoString

-- `hardCapMinutes`
abbrev pub hard_cap_minutes : ℕ
hard_cap_minutes = 24 * 60

abbrev pub minute : ℕ
minute = 60 * 1000000000

-- `mins` of `startCapture`
unfoldable pub capped : ℕ → ℕ
capped mins = if mins == 0 || ltb hard_cap_minutes mins then hard_cap_minutes else mins

-- The name of the recording, from the base of the command's and the formatted time.
unfoldable pub recording_name : GoString → GoString → GoString
unfolding eqs
recording_name base stamp =
    if eqs base [] || eqs base (str ".")
    then str "capture-" ++ (stamp ++ str ".golden.jsonl")
    else base

-- What `startCapture` calls: the base of the name, the time as a text, the time, and the error of
-- `sniff.NewOutput`.
pub record StartInputs : Type 0 where
  pub base : GoString
  pub stamp : GoString
  pub now : ℕ
  pub output_error : Option GoString

-- `startCapture` once the output is open: time.AfterFunc takes the same duration as `stopAt`.
unfoldable pub started : Command → StartInputs → Daemon → Daemon
unfolding capped recording_name
started cmd inputs d = record {
  session = suc (d.session);
  cap_name = recording_name (inputs.base) (inputs.stamp);
  running = true;
  stop_at = some (inputs.now + capped (cmd.duration_min) * minute);
  timer = some (suc (d.session), inputs.now + capped (cmd.duration_min) * minute);
  cancelled = d.cancelled;
  last_err = [];
}

-- `startCapture`
unfoldable pub start_capture : Command → StartInputs → Daemon → Daemon
unfolding started
start_capture cmd inputs d = if d.running then d else go (inputs.output_error)
  where
    go : Option GoString → Daemon
    go (some e) = d
    go none = started cmd inputs d

stopped : Daemon → Daemon
stopped d = record {
  session = d.session;
  cap_name = d.cap_name;
  running = false;
  stop_at = none;
  timer = none;
  cancelled = d.session ∷ d.cancelled;
  last_err = d.last_err;
}

-- `stopCapture`
unfoldable pub stop_capture : Daemon → Daemon
unfolding stopped
stop_capture d = if d.running then stopped d else d

-- The end of the goroutine of a session, with the error of its capture.
unfoldable pub capture_ended : Option GoString → Daemon → Daemon
capture_ended none d = d
capture_ended (some e) d = record {
  session = d.session;
  cap_name = d.cap_name;
  running = false;
  stop_at = none;
  timer = none;
  cancelled = d.cancelled;
  last_err = e;
}

-- `exec`; an upload leaves the state as it is.
unfoldable pub exec : Command → StartInputs → Daemon → Daemon
unfolding start_capture stop_capture
exec cmd inputs d = go (cmd.action)
  where
    go : Action → Daemon
    go start = start_capture cmd inputs d
    go stop = stop_capture d
    go upload = d
    go other = d

-- The fields of a heartbeat that the state decides.
pub record Beat : Type 0 where
  pub state : GoString
  pub current : GoString
  pub count : ℕ
  pub remain_sec : ℕ
  pub last_error : GoString

remaining : Bool → Option ℕ → ℕ → ℕ
remaining true (some t) now = (t - now) / 1000000000
remaining running stop_at now = 0

-- `beat` at a time that is not after `stopAt`; `count` is what the newest output has counted.
unfoldable pub beat : ℕ → ℕ → Daemon → Beat
unfolding remaining
beat now count d = record {
  state = if d.running then str "capturing" else str "idle";
  current = d.cap_name;
  count = if d.session == 0 then 0 else count;
  remain_sec = remaining (d.running) (d.stop_at) now;
  last_error = d.last_err;
}

-- The daemon before its first command.
abbrev pub idle : Daemon
idle = record {
  session = 0;
  cap_name = [];
  running = false;
  stop_at = none;
  timer = none;
  cancelled = [];
  last_err = [];
}

-- What can happen to the daemon: a command, and at any time the function of a timer, which may already
-- wait for the lock when its timer is stopped, or the end of the goroutine of a capture.
pub data Step : Daemon → Daemon → Type 0 where
  command : (cmd : Command) (inputs : StartInputs) (d : Daemon) → Step d (exec cmd inputs d)
  timer_fires : (d : Daemon) → Step d (stop_capture d)
  goroutine_ends : (e : Option GoString) (d : Daemon) → Step d (capture_ended e d)

pub data Reachable : Daemon → Type 0 where
  at_start : Reachable idle
  after : {d d' : Daemon} → Reachable d → Step d d' → Reachable d'

-- What can happen later.
pub data Later (d : Daemon) : Daemon → Type 0 where
  unchanged : Later d d
  later : {d' d'' : Daemon} → Later d d' → Step d' d'' → Later d d''
