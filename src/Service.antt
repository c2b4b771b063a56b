-- ===== src/Service.antt =====
-- src/gruezi/start.rs: the service in HA mode, as three tasks that interleave. One runs the HA loop,
-- one the management API, and `start_ha_service` itself waits for a signal and for both. Which of
-- them runs next, and what its environment gives it, is free, so a run of the service is a sequence
-- of steps. `start_service`, the direct command-line path, starts nothing yet.
pub mod Sound
pub mod Shutdown
pub mod Progress
use gruezi.Base.{ℕ, ◌≡◌, Bool, true, false, ◌||◌, Option, none, some, List, ◌++◌}
use gruezi.Base.Result.{Result, ok, err}
use gruezi.Base.Word.{Bytes}
use gruezi.Net.{SocketAddr}
use gruezi.Config.{Config, Mode, ha, kv}
use gruezi.Signals.{SignalError}
use gruezi.Text.{Text}
use gruezi.Ha.Error.{Error}
use gruezi.Ha.Loop.{Effect, initialize_loop_state}
use gruezi.Ha.Loop.Run.{
  Event, shutdown, receive, timer, Round, Outcome, running, stopped, failed, round,
}
use gruezi.Ha.Runtime.{HaRuntimeConfig, RuntimeError, runtime_from}
use gruezi.Ha.Status.{HaLoopState}

pub data StartError : Type 0 where
  not_convertible : RuntimeError → StartError
  kv_not_implemented : StartError

unfoldable pub converted : Result RuntimeError HaRuntimeConfig → Result StartError HaRuntimeConfig
converted (ok r) = ok r
converted (err e) = err (not_convertible e)

unfoldable pub start_in : Mode → Config → Result StartError HaRuntimeConfig
unfolding converted
start_in ha c = converted (runtime_from c)
start_in kv c = err kv_not_implemented

-- `start_service_with_config`: the configuration with which `start_ha_service` runs, or an error.
unfoldable pub start_service_with_config : Config → Result StartError HaRuntimeConfig
unfolding start_in
start_service_with_config c = start_in c.mode c

-- `start_service` logs its arguments, and succeeds.
unfoldable pub start_service : Text → Option Text → Option Text → Result StartError (Unit {0})
start_service bind peers node_id = ok tt

-- The error with which a task ends.
pub data Failure : Type 0 where
  -- `bind_ha_socket`, or the parse of the peer's address.
  setup_failed : Text → Failure
  loop_failed : Error → Failure
  api_failed : Text → Failure

-- What a handle gives once its task has ended: `none` if the task could not be joined.
abbrev pub Joined : Type 0
Joined = Option (Result Failure (Unit {0}))

pub data TaskName : Type 0 where
  ha_runtime ha_status_api : TaskName

pub data ServiceError : Type 0 where
  signal_failed : SignalError → ServiceError
  failed_to_join : TaskName → ServiceError
  returned_an_error : TaskName → Failure → ServiceError

-- `handle_task_result`
unfoldable pub handle_task_result : Joined → TaskName → Result ServiceError (Unit {0})
handle_task_result none name = err (failed_to_join name)
handle_task_result (some (err e)) name = err (returned_an_error name e)
handle_task_result (some (ok done)) name = ok done

-- The HA task: before the socket is bound, in or after the loop, with the effects so far, or ended
-- in another way.
pub data HaTask : Type 0 where
  unbound : HaTask
  refused : Failure → HaTask
  bound : Outcome → List Effect → HaTask
  panicked : HaTask

-- What its handle gives, if it has ended.
unfoldable pub joined_outcome : Outcome → Option Joined
joined_outcome (running s) = none
joined_outcome (stopped s) = some (some (ok tt))
joined_outcome (failed s e) = some (some (err (loop_failed e)))

unfoldable pub joined_ha : HaTask → Option Joined
unfolding joined_outcome
joined_ha unbound = none
joined_ha (refused e) = some (some (err e))
joined_ha (bound outcome effects) = joined_outcome outcome
joined_ha panicked = some none

-- Where `start_ha_service` is.
pub data Main : Type 0 where
  -- in `select!`
  selecting : Main
  -- in the first and in the second `await_task`
  awaiting_ha awaiting_api : Main
  returned : Result ServiceError (Unit {0}) → Main

pub record Service : Type 0 where
  pub ha_task : HaTask
  pub api_task : Option Joined
  -- the value in the channel
  pub shutdown_sent : Bool
  pub main : Main

abbrev pub started : Service
started = record { ha_task = unbound; api_task = none; shutdown_sent = false; main = selecting }

unfoldable pub has_returned : Main → Bool
has_returned selecting = false
has_returned awaiting_ha = false
has_returned awaiting_api = false
has_returned (returned result) = true

-- Is `wait_for_shutdown` ready? It returns once the channel holds `true`, or once the sender is
-- gone, which `start_ha_service` drops as it returns.
unfoldable pub wait_for_shutdown : Service → Bool
unfolding has_returned
wait_for_shutdown v = v.shutdown_sent || has_returned v.main

-- The branches of `select!`: `shutdown_signal` with its result, or a task that ended.
pub data Selected : Type 0 where
  by_signal : Result SignalError (Unit {0}) → Selected
  by_ha by_api : Joined → Selected

-- The bodies of the branches.
unfoldable pub select : Service → Selected → Service
unfolding handle_task_result
select v (by_signal (ok done)) = record v { shutdown_sent = true; main = awaiting_ha }
select v (by_signal (err e)) = record v { main = returned (err (signal_failed e)) }
select v (by_ha result) = record v {
  shutdown_sent = true;
  main = returned (handle_task_result result ha_runtime);
}
select v (by_api result) = record v {
  shutdown_sent = true;
  main = returned (handle_task_result result ha_status_api);
}

-- `await_task(ha_task, ..).await?`
unfoldable pub after_ha : Result ServiceError (Unit {0}) → Main
after_ha (ok done) = awaiting_api
after_ha (err e) = returned (err e)

-- May the branch be taken?
abbrev pub Ready : Service → Selected → Type 0
Ready v (by_signal result) = Unit {0}
Ready v (by_ha result) = joined_ha v.ha_task ≡ some result
Ready v (by_api result) = v.api_task ≡ some result

-- The shutdown branch of the loop is taken only when its future is ready.
abbrev pub Allows : Service → Event → Type 0
Allows v (shutdown now) = wait_for_shutdown v ≡ true
Allows v (receive recv buffer now cleanup_at) = Unit {0}
Allows v (timer sent tokio_now now cleanup_at) = Unit {0}

-- The server ends well only as a graceful shutdown.
abbrev pub AllowsApi : Service → Joined → Type 0
AllowsApi v none = Unit {0}
AllowsApi v (some (err e)) = Unit {0}
AllowsApi v (some (ok done)) = wait_for_shutdown v ≡ true

-- The loop of the HA task at its start, and after one more round.
unfoldable pub loop_started : HaRuntimeConfig → ℕ → ℕ → HaTask
loop_started r startup_at tokio_now =
    let (s, effects) = initialize_loop_state r true startup_at tokio_now in
    bound (running s) effects

unfoldable pub loop_ran :
    (Bytes → ℕ) → HaRuntimeConfig → SocketAddr → HaLoopState → List Effect → Round → HaTask
loop_ran hash r peer_addr s effects i =
    let (outcome, more) = round hash r true peer_addr s i in bound outcome (effects ++ more)

-- `start_ha_service`, with `run_with_status` and `run_ha_api` as its tasks.
module _ (hash : Bytes → ℕ) (r : HaRuntimeConfig) (peer_addr : SocketAddr) where
  pub data Step : Service → Service → Type 0 where
    ha_refused :
        (v : Service) (e : Failure)
        → v.ha_task ≡ unbound
        → Step v (record v { ha_task = refused e })
    ha_started :
        (v : Service) (startup_at tokio_now : ℕ)
        → v.ha_task ≡ unbound
        → Step v (record v { ha_task = loop_started r startup_at tokio_now })
    ha_ran :
        (v : Service) (s : HaLoopState) (effects : List Effect) (i : Round)
        → v.ha_task ≡ bound (running s) effects
        → Allows v i.event
        → Step v (record v { ha_task = loop_ran hash r peer_addr s effects i })
    ha_panicked :
        (v : Service) → joined_ha v.ha_task ≡ none → Step v (record v { ha_task = panicked })
    api_ended :
        (v : Service) (result : Joined)
        → v.api_task ≡ none
        → AllowsApi v result
        → Step v (record v { api_task = some result })
    selected :
        (v : Service) (branch : Selected)
        → v.main ≡ selecting
        → Ready v branch
        → Step v (select v branch)
    ha_awaited :
        (v : Service) (result : Joined)
        → v.main ≡ awaiting_ha
        → joined_ha v.ha_task ≡ some result
        → Step v (record v { main = after_ha (handle_task_result result ha_runtime) })
    api_awaited :
        (v : Service) (result : Joined)
        → v.main ≡ awaiting_api
        → v.api_task ≡ some result
        → Step v (record v { main = returned (handle_task_result result ha_status_api) })

  pub data Reachable : Service → Type 0 where
    start : Reachable started
    step : (v w : Service) → Reachable v → Step v w → Reachable w
