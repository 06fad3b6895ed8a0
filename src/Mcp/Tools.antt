-- ===== src/Mcp/Tools.antt =====
-- The tools of internal/mcp/tools.go over the dashboard's HTTP interface. The dashboard answers each call
-- by all calls before it; what `encoding/json`, `url.QueryEscape` and `%v` make of a text or a value are
-- parameters. Of `toolSpecs` the descriptions and the types of the properties are left out.
use mocking_box.Prelude.{
  ℕ, zero, suc, Bool, false, ◌&&◌, List, [], ◌∷◌, ◌++◌, Option, none, some, if◌then◌else◌, leb,
  GoString, str, eqs, itoa, length,
}
use mocking_box.Diff.Value.{Numerics, Value, bool, string}

-- An entry of `toolSpecs`: a name, the properties of the schema, and those that are required.
pub record ToolSpec : Type 0 where
  pub name : GoString
  pub properties : List GoString
  pub required : List GoString

spec : GoString → List GoString → List GoString → ToolSpec
spec name properties required = record { name = name; properties = properties; required = required }

connection_properties : List GoString
connection_properties =
    str "type" ∷ str "host" ∷ str "port" ∷ str "user" ∷ str "password" ∷ str "database" ∷ []

-- `toolSpecs`
unfoldable pub tool_specs : List ToolSpec
unfolding spec connection_properties
tool_specs =
    spec (str "get_config") [] []
    ∷ spec (str "test_connection") connection_properties (str "type" ∷ str "host" ∷ str "user" ∷ [])
    ∷ spec (str "set_config") (str "config" ∷ []) (str "config" ∷ [])
    ∷ spec (str "health") [] []
    ∷ spec (str "discover_db") connection_properties (str "type" ∷ str "host" ∷ str "user" ∷ [])
    ∷ spec (str "copy_db") (str "confirm" ∷ []) (str "confirm" ∷ [])
    ∷ spec (str "list_recordings") [] []
    ∷ spec (str "verify") (str "corpus" ∷ str "confirm" ∷ []) (str "corpus" ∷ str "confirm" ∷ [])
    ∷ spec (str "list_runs") [] []
    ∷ spec (str "get_results") (str "file" ∷ str "only_diffs" ∷ []) []
    ∷ []

-- A request to the dashboard; the body is what `postJSON` and `putJSON` marshal.
pub record Call (N : Numerics) : Type 0 where
  pub verb : GoString
  pub path : GoString
  pub body : Option (Value N)

-- What the client gets: an error of the request, or a status with its text and the body.
pub data Answer : Type 0 where
  unreachable : GoString → Answer
  responded : ℕ → GoString → GoString → Answer

-- `get`, `postJSON` and `putJSON` give data and an error.
pub record Fetched : Type 0 where
  pub data_text : GoString
  pub err : Option GoString

-- The structs that `pollSeed`, `pollReplay` and `summarizeRun` decode.
pub record SeedStatus : Type 0 where
  pub running : Bool
  pub error : GoString
  pub tables : ℕ
  pub rows : ℕ

pub record ReplayStatus : Type 0 where
  pub running : Bool
  pub last_report : GoString
  pub last_error : GoString

-- A difference with its values as `%v` prints them, like the summary of a run.
pub record RunDifference : Type 0 where
  pub path : GoString
  pub old : GoString
  pub new : GoString

pub record RunResult : Type 0 where
  pub name : GoString
  pub request : GoString
  pub verdict : GoString
  pub differences : List RunDifference

pub record RunReport : Type 0 where
  pub corpus : GoString
  pub summary : GoString
  pub results : List RunResult

pub record Dashboard (N : Numerics) : Type 0 where
  pub answer : List (Call N) → Call N → Answer
  pub seed_status : GoString → SeedStatus
  pub replay_status : GoString → ReplayStatus
  -- The files of the runs, as far as they are strings
  pub run_files : GoString → List (Option GoString)
  pub run_report : GoString → Option RunReport
  -- `json.MarshalIndent` of the decoded text, or the text where it does not parse
  pub indented : GoString → GoString
  pub query_escape : GoString → GoString

-- What `do` makes of an answer; the dashboard's URL is left out of the error.
unfoldable pub fetched : Answer → Fetched
fetched (unreachable e) = record { data_text = []; err = some (str "dashboard unreachable: " ++ e) }
fetched (responded status status_text body) = record {
  data_text = body;
  err =
      if leb 400 status
      then some (str "dashboard returned " ++ (status_text ++ (str ": " ++ body)))
      else none;
}

-- `(+%d more)`
more_text : ℕ → GoString
unfolding itoa
more_text zero = []
more_text (suc n) = str " (+" ++ (itoa (suc n) ++ str " more)")

-- The rest of a line of `summarizeRun`
difference_text : List RunDifference → GoString
unfolding more_text
difference_text [] = []
difference_text (d ∷ ds) =
    str "  | "
    ++ (d.path
        ++ (str ": " ++ (d.old ++ ((32 ∷ 226 ∷ 134 ∷ 146 ∷ 32 ∷ d.new) ++ more_text (length ds)))))

newline : GoString
newline = 10 ∷ []

-- The loop of `summarizeRun`
unfoldable pub summary_lines : Bool → List RunResult → GoString
unfolding eqs difference_text newline
summary_lines only_diffs [] = []
summary_lines only_diffs (r ∷ rs) =
    let rest = summary_lines only_diffs rs in
    if only_diffs && eqs (r.verdict) (str "MATCH")
    then rest
    else (str "- ["
        ++ (r.verdict
            ++ (str "] "
                ++ (r.name
                    ++ (str " " ++ (r.request ++ (difference_text (r.differences) ++ newline)))))))
      ++ rest

-- An argument that is a string, or the empty one
unfoldable pub string_argument : {N : Numerics} → Option (Value N) → GoString
string_argument (some (string s)) = s
string_argument v = []

-- `args[…] == true`
unfoldable pub is_true : {N : Numerics} → Option (Value N) → Bool
is_true (some (bool b)) = b
is_true v = false

-- The cases of `runTool`
pub data Tool : Type 0 where
  get_config test_connection discover_db set_config health list_recordings list_runs copy_db
        verify :
      Tool
  get_results unknown : Tool

-- The case of a name
unfoldable pub tool_named : GoString → Tool
unfolding eqs
tool_named name =
    if eqs name (str "get_config")
    then get_config
    else if eqs name (str "test_connection")
    then test_connection
    else if eqs name (str "discover_db")
    then discover_db
    else if eqs name (str "set_config")
    then set_config
    else if eqs name (str "health")
    then health
    else if eqs name (str "list_recordings")
    then list_recordings
    else if eqs name (str "list_runs")
    then list_runs
    else if eqs name (str "copy_db")
    then copy_db
    else if eqs name (str "verify")
    then verify
    else if eqs name (str "get_results")
    then get_results
    else unknown
