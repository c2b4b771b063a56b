-- ===== src/Cli/Main.antt =====
-- src/cli/start.rs and src/bin/gruezi.rs: the program, from the command line to its end. The parts
-- that act are arguments: the initialisation of telemetry and the three actions.
use gruezi.Base.{ℕ, Bool, Option}
use gruezi.Base.Result.{Result, ok, err, ◌>>=◌, ◌>>◌}
use gruezi.Text.{Text, codes}
use gruezi.Cli.{Action, start_action, status_action, peers_action, Level, get_verbosity_level}
use gruezi.Cli.Commands.{new}
use gruezi.Cli.Dispatch.{DispatchError, Matches, get_count, handler}

-- The errors with which the program ends.
pub data MainError : Type 0 where
  telemetry_error : MainError
  dispatch_error : DispatchError → MainError
  action_error : Text → MainError

dispatched : {A : Type 0} → Result DispatchError A → Result MainError A
dispatched (ok a) = ok a
dispatched (err e) = err (dispatch_error e)

-- `start`, on what clap matched: the level for telemetry, then the action.
unfoldable pub start :
    (Option Level → Result MainError (Unit {0})) → Matches → Result MainError Action
unfolding dispatched handler get_count new get_verbosity_level
start init m = do
  verbose ← dispatched (get_count new.args m.root (codes "verbose"))
  init (get_verbosity_level verbose)
  dispatched (handler new m)

-- What the three actions do.
pub record Actions : Type 0 where
  pub run_start :
      Option Text → Text → Option Text → Option Text → Bool → Result MainError (Unit {0})
  pub run_status : Option Text → Bool → Bool → ℕ → Result MainError (Unit {0})
  pub run_peers : Text → Bool → Result MainError (Unit {0})

-- `execute`
unfoldable pub execute : Actions → Action → Result MainError (Unit {0})
execute actions (start_action config bind peers node_id verbose) =
    actions.run_start config bind peers node_id verbose
execute actions (status_action peer verbose watch interval_ms) =
    actions.run_status peer verbose watch interval_ms
execute actions (peers_action format verbose) = actions.run_peers format verbose

-- `main`; the tracer is shut down after it in any case.
unfoldable pub main :
    (Option Level → Result MainError (Unit {0})) → Actions → Matches → Result MainError (Unit {0})
unfolding start execute
main init actions m = start init m >>= execute actions
