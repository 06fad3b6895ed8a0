-- ===== src/Agent/Running.antt =====
-- The rest of the daemon of internal/agent/daemon.go: the commands of a heartbeat's reply, the listing and
-- the upload of recordings, and the loop of `RunDaemon`. The directory and the dashboard are inputs.
use mocking_box.Prelude.{
  ℕ, Bool, not, ◌&&◌, ◌||◌, List, [], ◌∷◌, Option, none, some, if◌then◌else◌, GoString, str,
  has_suffix, sort_by, Result, ok, fail,
}
use mocking_box.Golden.{is_golden_file}
use mocking_box.Agent.Daemon.{Daemon, Command, StartInputs, exec, stop_capture}

-- An entry of the directory, with its size where it is known
pub record FileEntry : Type 0 where
  pub name : GoString
  pub is_dir : Bool
  pub size : Option ℕ

pub record Recording : Type 0 where
  pub name : GoString
  pub size : ℕ
  pub golden : Bool

size_or_zero : Option ℕ → ℕ
size_or_zero none = 0
size_or_zero (some n) = n

-- The loop of `listRecordings`
unfoldable pub recordings : List FileEntry → List Recording
unfolding has_suffix size_or_zero is_golden_file
recordings [] = []
recordings (e ∷ es) =
    let rest = recordings es in
    if e.is_dir
      || (not (has_suffix (e.name) (str ".jsonl")) && not (has_suffix (e.name) (str ".har")))
    then rest
    else (record { name = e.name; size = size_or_zero (e.size); golden = is_golden_file (e.name) })
      ∷ rest

-- `listRecordings`
unfoldable pub list_recordings : List FileEntry → List Recording
unfolding recordings sort_by
list_recordings es = sort_by (λ r. r.name) (recordings es)

-- The loop over the commands of a heartbeat's reply, each with what a start of it meets
unfoldable pub exec_all : List (Command × StartInputs) → Daemon → Daemon
unfolding exec
exec_all [] d = d
exec_all ((cmd, inputs) ∷ later) d = exec_all later (exec cmd inputs d)

-- The end of `beat`, with the reply's commands or the error of the post
unfoldable pub replied : Result (List (Command × StartInputs)) → Daemon → Daemon
unfolding exec_all
replied (fail e) d = d
replied (ok commands) d = exec_all commands d

-- The loop of `RunDaemon` over the replies of its heartbeats, until its context is done
unfoldable pub run_loop : List (Result (List (Command × StartInputs))) → Daemon → Daemon
unfolding replied stop_capture
run_loop [] d = stop_capture d
run_loop (reply ∷ later) d = run_loop later (replied reply d)

-- The name and the bytes that `upload` posts; nothing where the file cannot be read
unfoldable pub upload : GoString → Result GoString → Option (GoString × GoString)
upload base (fail e) = none
upload base (ok raw) = some (base, raw)
