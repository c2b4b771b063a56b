-- ===== src/Cli.antt =====
-- The command line of src/cli: what it accepts, the actions, and their execution. What a command
-- prints is a list of lines, each to the standard output or to the standard error.
pub mod Arg
pub mod Commands
pub mod Dispatch
pub mod Status
pub mod Start
pub mod Peers
pub mod Main
pub mod Telemetry
pub mod Options
use gruezi.Base.{ℕ, zero, suc, Bool, Option, none, some}
use gruezi.Text.{Text}

-- `Action`
pub data Action : Type 0 where
  start_action : Option Text → Text → Option Text → Option Text → Bool → Action
  status_action : Option Text → Bool → Bool → ℕ → Action
  peers_action : Text → Bool → Action

-- `println!` and `eprintln!`
pub data Line : Type 0 where
  println eprintln : Text → Line

-- `tracing::Level`
pub data Level : Type 0 where
  info_level debug_level trace_level : Level

-- `get_verbosity_level`
unfoldable pub get_verbosity_level : ℕ → Option Level
get_verbosity_level zero = none
get_verbosity_level (suc zero) = some info_level
get_verbosity_level (suc (suc zero)) = some debug_level
get_verbosity_level (suc (suc (suc n))) = some trace_level
