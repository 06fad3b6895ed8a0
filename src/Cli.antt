-- ===== src/Cli.antt =====
-- The command line of cmd/mockingbox/main.go: the choice of the command (`main`, `cmdCollect`), the
-- verification and the live run (Verify), the seeding (Seeding) and the collectors (Collect). What the flag
-- package parses is given as its values.
pub mod Verify
pub mod Exit
pub mod Seeding
pub mod Collect
use mocking_box.Prelude.{
  Bool, true, false, ◌||◌, List, [], ◌∷◌, if◌then◌else◌, GoString, str, eqs, has_prefix,
}

-- What `main` runs, with the arguments that are left; `help` exits with 0, `usage` with 2.
pub data Command : Type 0 where
  run verify dashboard mcp seed sniff convert mirror agent proxy : List GoString → Command
  help usage : Command

-- `cmdCollect`
unfoldable pub collect : List GoString → Command
unfolding eqs has_prefix
collect [] = sniff []
collect (mode ∷ args) =
    if has_prefix mode (str "-")
    then sniff (mode ∷ args)
    else if eqs mode (str "agent")
    then agent args
    else if eqs mode (str "sniff")
    then sniff args
    else if eqs mode (str "pcap")
    then convert args
    else if eqs mode (str "mirror")
    then mirror args
    else if eqs mode (str "proxy")
    then proxy args
    else sniff (mode ∷ args)

-- `main`, without the name of the program
unfoldable pub command_of : List GoString → Command
unfolding eqs collect
command_of [] = usage
command_of (name ∷ args) =
    if eqs name (str "run")
    then run args
    else if eqs name (str "verify")
    then verify args
    else if eqs name (str "dashboard") || eqs name (str "ui")
    then dashboard args
    else if eqs name (str "mcp")
    then mcp args
    else if eqs name (str "collector") || eqs name (str "collect")
    then collect args
    else if eqs name (str "seed")
    then seed args
    else if eqs name (str "sniff")
    then sniff args
    else if eqs name (str "convert")
    then convert args
    else if eqs name (str "mirror")
    then mirror args
    else if eqs name (str "-h") || (eqs name (str "--help") || eqs name (str "help"))
    then help
    else usage
