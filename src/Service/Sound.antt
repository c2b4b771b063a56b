-- ===== src/Service/Sound.antt =====
-- The invariant of `start_ha_service` of src/gruezi/start.rs, and how it carries over when one task
-- goes on.
pub mod Steps
use gruezi.Base.{
  ℕ, ◌≡◌, ◌≢◌, ◌⊎◌, refl, sym, ap, ◌∙◌, subst, Bool, true, false, ◌||◌, Option, none, some, List,
  inl, inr,
}
use gruezi.Base.Result.{Result, ok, err}
use gruezi.Base.Word.{Bytes}
use gruezi.Net.{SocketAddr}
use gruezi.Ha.Error.{Error}
use gruezi.Ha.Loop.{Effect, refresh_local_state}
use gruezi.Ha.Loop.Run.{
  Event, shutdown, receive, timer, Round, Outcome, running, stopped, failed, or_cleanup, handle,
  round,
}
use gruezi.Ha.Loop.Transitions.{replay, replay-++}
use gruezi.Ha.Loop.Vip.{final_state, Ended, round-replay, initialize-replay, handle-Ended}
use gruezi.Ha.Runtime.{HaRuntimeConfig}
use gruezi.Ha.State.{init, active, state_eq}
use gruezi.Ha.Status.{HaLoopState}
use gruezi.Service.{
  Failure, loop_failed, Joined, ha_runtime, ha_status_api, ServiceError, signal_failed,
  failed_to_join, returned_an_error, handle_task_result, HaTask, unbound, refused, bound, panicked,
  joined_outcome, joined_ha, Main, selecting, awaiting_ha, awaiting_api, returned, Service,
  has_returned, wait_for_shutdown, by_signal, by_ha, by_api, Selected, select, after_ha, Ready,
  Allows, AllowsApi, loop_started, loop_ran, Step, ha_refused, ha_started, ha_ran, ha_panicked,
  api_ended, selected, ha_awaited, api_awaited, Reachable, start, step,
}

-- A loop that stopped was told to.
abbrev pub StopsTold : Bool → Outcome → Type 0
StopsTold told (running s) = Unit {0}
StopsTold told (stopped s) = told ≡ true
StopsTold told (failed s e) = Unit {0}

-- The effects of the loop leave the addresses with the node exactly if it is active, and its state
-- is `init` once it has ended.
abbrev pub HaSound : Bool → HaTask → Type 0
HaSound told unbound = Unit {0}
HaSound told (refused e) = Unit {0}
HaSound told (bound o effects) =
    (replay false effects ≡ state_eq (final_state o).state active)
    × (Ended o → (final_state o).state ≡ init)
    × StopsTold told o
HaSound told panicked = Unit {0}

-- A task that ended well was told to end.
abbrev pub WellTold : Bool → Joined → Type 0
WellTold told none = Unit {0}
WellTold told (some (err e)) = Unit {0}
WellTold told (some (ok done)) = told ≡ true

abbrev pub ApiSound : Bool → Option Joined → Type 0
ApiSound told none = Unit {0}
ApiSound told (some result) = WellTold told result

abbrev pub ErrorSound : HaTask → ServiceError → Type 0
ErrorSound task (signal_failed e) = Unit {0}
ErrorSound task (failed_to_join name) = Unit {0}
ErrorSound task (returned_an_error ha_runtime e) = joined_ha task ≡ some (some (err e))
ErrorSound task (returned_an_error ha_status_api e) = Unit {0}

abbrev pub MainSound : Bool → HaTask → Option Joined → Main → Type 0
MainSound sent task api selecting = sent ≡ false
MainSound sent task api awaiting_ha = sent ≡ true
MainSound sent task api awaiting_api = (sent ≡ true) × (joined_ha task ≡ some (some (ok tt)))
MainSound sent task api (returned (ok done)) =
    (sent ≡ true) × (joined_ha task ≡ some (some (ok tt))) × (api ≡ some (some (ok tt)))
MainSound sent task api (returned (err e)) = ErrorSound task e

abbrev pub Sound : Service → Type 0
Sound v =
    HaSound (wait_for_shutdown v) v.ha_task
    × ApiSound (wait_for_shutdown v) v.api_task
    × MainSound v.shutdown_sent v.ha_task v.api_task v.main

raise_stops : (told now : Bool) (o : Outcome) → now ≡ true → StopsTold told o → StopsTold now o
raise_stops told now (running s) t h = tt
raise_stops told now (stopped s) t h = t
raise_stops told now (failed s e) t h = tt

pub raise_ha : (told now : Bool) (task : HaTask) → now ≡ true → HaSound told task → HaSound now task
raise_ha told now unbound t h = tt
raise_ha told now (refused e) t h = tt
raise_ha told now (bound o effects) t h = (h.0, h.1, raise_stops told now o t h.2)
raise_ha told now panicked t h = tt

pub raise_api :
    (told now : Bool) (api : Option Joined) → now ≡ true → ApiSound told api → ApiSound now api
raise_api told now none t h = tt
raise_api told now (some none) t h = tt
raise_api told now (some (some (err e))) t h = tt
raise_api told now (some (some (ok done))) t h = t

pub none-ne-some : {A : Type 0} → (x : Option A) (y : A) → x ≡ none → x ≢ some y
none-ne-some x y n s = cc

pub true-ne-false : (b : Bool) → b ≡ true → b ≢ false
true-ne-false b t f = cc

pub or_true : (b : Bool) → (b || true) ≡ true
or_true true = refl
or_true false = refl

pub true_or : (b c : Bool) → b ≡ true → (b || c) ≡ true
true_or b c t = rw t refl

pub joined_unbound : (v : Service) → v.ha_task ≡ unbound → joined_ha v.ha_task ≡ none
unfolding joined_ha
joined_unbound v u = ap joined_ha u

pub joined_running :
    (v : Service) (s : HaLoopState) (effects : List Effect)
    → v.ha_task ≡ bound (running s) effects
    → joined_ha v.ha_task ≡ none
unfolding joined_ha joined_outcome
joined_running v s effects b = ap joined_ha b

pub api_sound :
    (result : Joined) (v : Service)
    → AllowsApi v result
    → ApiSound (wait_for_shutdown v) (some result)
api_sound none v a = tt
api_sound (some (err e)) v a = tt
api_sound (some (ok done)) v a = a

-- As long as the HA task has not ended, the service rests on nothing that it gave.
error_task :
    (task task' : HaTask) (e : ServiceError)
    → joined_ha task ≡ none
    → ErrorSound task e
    → ErrorSound task' e
error_task task task' (signal_failed e) j h = tt
error_task task task' (failed_to_join name) j h = tt
error_task task task' (returned_an_error ha_runtime e) j h = absurd (none-ne-some _ _ j h)
error_task task task' (returned_an_error ha_status_api e) j h = tt

pub main_task :
    (sent : Bool) (task task' : HaTask) (api : Option Joined) (m : Main)
    → joined_ha task ≡ none
    → MainSound sent task api m
    → MainSound sent task' api m
main_task sent task task' api selecting j h = h
main_task sent task task' api awaiting_ha j h = h
main_task sent task task' api awaiting_api j h = absurd (none-ne-some _ _ j h.1)
main_task sent task task' api (returned (ok done)) j h = absurd (none-ne-some _ _ j h.1)
main_task sent task task' api (returned (err e)) j h = error_task task task' e j h

pub main_api :
    (sent : Bool) (task : HaTask) (result : Option Joined) (api : Option Joined) (m : Main)
    → api ≡ none
    → MainSound sent task api m
    → MainSound sent task result m
main_api sent task result api selecting a h = h
main_api sent task result api awaiting_ha a h = h
main_api sent task result api awaiting_api a h = h
main_api sent task result api (returned (ok done)) a h = absurd (none-ne-some _ _ a h.2)
main_api sent task result api (returned (err e)) a h = h
