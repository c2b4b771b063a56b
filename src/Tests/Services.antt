-- ===== src/Tests/Services.antt =====
-- The theorems on the service, applied to runs of it on node `a`.
use gruezi.Base.{ℕ, ◌≤◌, ◌≡◌, ◌⊎◌, refl, true, false, none, some, List, [], ◌++◌}
use gruezi.Base.Result.{ok, err}
use gruezi.Text.{is_blank, codes}
use gruezi.Ha.Auth.{build_packet, auth_stream, auth_tag}
use gruezi.Ha.Error.{Error, receive_failed, addr_in_use, is_transient_io_error}
use gruezi.Ha.Loop.{Effect, initial_state, initialize_loop_state, refresh_local_state}
use gruezi.Ha.Loop.Handlers.{handle_send_event, handle_receive_event}
use gruezi.Ha.Loop.Run.{Round, timer, shutdown, receive, running, stopped, failed, round}
use gruezi.Ha.Loop.Transitions.{replay}
use gruezi.Ha.Loop.Vip.{final_state}
use gruezi.Ha.Packet.{wire, encode}
use gruezi.Ha.Runtime.{follower_deadline}
use gruezi.Ha.Decision.{desired_state, has_live_active_peer}
use gruezi.Ha.State.{init, active, as_u8}
use gruezi.Ha.Status.{HaLoopState}
use gruezi.Service.{
  loop_failed, api_failed, ha_runtime, ha_status_api, returned_an_error, handle_task_result, HaTask,
  refused, bound, joined_ha, awaiting_ha, awaiting_api, returned, Service, has_returned, started,
  wait_for_shutdown, by_signal, by_ha, select, after_ha, loop_started, loop_ran, ha_started, ha_ran,
  api_ended, selected, ha_awaited, api_awaited, Reachable, start, step,
}
use gruezi.Service.Shutdown.{returned_ok, returned_ha_error}
use gruezi.Service.Progress.{Run, begin, moves_on, HasNext, Run-HasNext, api_first-abandons}
use gruezi.Tests.{hash, node_a, peer_addr}

abbrev stop_round : ℕ → Round
stop_round t = record { refreshed_at = t; event = shutdown t }

abbrev Reaches : Service → Type 0
Reaches = Reachable hash node_a peer_addr

-- The loop is started and the signal comes; the loop stops, then the API.
abbrev looping : Service
looping = record started { ha_task = loop_started node_a 0 0 }

Reaches-looping : Reaches looping
Reaches-looping = step _ _ start (ha_started started 0 0 refl)

abbrev first_state : HaLoopState
first_state = initial_state node_a 0 0

abbrev first_effects : List Effect
first_effects = (initialize_loop_state node_a true 0 0).1

looping_task : loop_started node_a 0 0 ≡ bound (running first_state) first_effects
unfolding loop_started initialize_loop_state initial_state
looping_task = refl

abbrev stopping : Service
stopping = record looping { shutdown_sent = true; main = awaiting_ha }

Reaches-stopping : Reaches stopping
unfolding select
Reaches-stopping = step _ _ Reaches-looping (selected looping (by_signal (ok tt)) refl tt)

abbrev loop_done : HaTask
loop_done = loop_ran hash node_a peer_addr first_state first_effects (stop_round 1)

abbrev halted : Service
halted = record stopping { ha_task = loop_done }

Reaches-halted : Reaches halted
unfolding wait_for_shutdown
Reaches-halted =
    step _ _ Reaches-stopping
      (ha_ran stopping first_state first_effects (stop_round 1) looping_task refl)

loop_done-joined : joined_ha loop_done ≡ some (some (ok tt))
unfolding joined_ha loop_ran round
loop_done-joined = refl

abbrev joined_loop : Service
joined_loop = record halted { main = awaiting_api }

Reaches-joined_loop : Reaches joined_loop
unfolding after_ha handle_task_result
Reaches-joined_loop =
    step _ _ Reaches-halted (ha_awaited halted (some (ok tt)) refl loop_done-joined)

abbrev api_done : Service
api_done = record joined_loop { api_task = some (some (ok tt)) }

Reaches-api_done : Reaches api_done
unfolding wait_for_shutdown
Reaches-api_done = step _ _ Reaches-joined_loop (api_ended joined_loop (some (ok tt)) refl refl)

abbrev ended_well : Service
ended_well = record api_done { main = returned (ok tt) }

Reaches-ended_well : Reaches ended_well
unfolding handle_task_result
Reaches-ended_well = step _ _ Reaches-api_done (api_awaited api_done (some (ok tt)) refl refl)

returned_ok_example :
    (s : HaLoopState) × (effects : List Effect) × (loop_done ≡ bound (stopped s) effects)
    × (s.state ≡ init)
    × (replay false effects ≡ false)
    × (ended_well.api_task ≡ some (some (ok tt)))
    × (ended_well.shutdown_sent ≡ true)
returned_ok_example = returned_ok hash node_a peer_addr ended_well Reaches-ended_well refl

-- The signal came while the loop was running.
abbrev signalled_early : Service
signalled_early = record looping { shutdown_sent = true; main = awaiting_ha }

signalled-Run : Run hash node_a peer_addr 2 signalled_early
unfolding select
signalled-Run =
    moves_on 1 looping _ (moves_on 0 started looping begin (ha_started started 0 0 refl) (λ x. x))
      (selected looping (by_signal (ok tt)) refl tt) (λ x. x)

Run-HasNext_example :
    (2 ≤ 6)
    × ((has_returned signalled_early.main ≡ true) ⊎ HasNext hash node_a peer_addr signalled_early)
Run-HasNext_example = Run-HasNext hash node_a peer_addr 2 signalled_early signalled-Run

-- The loop meets an error of the socket.
abbrev broken_round : Round
broken_round = record { refreshed_at = 1; event = receive (err addr_in_use) [] 2 3 }

abbrev loop_broken : HaTask
loop_broken = loop_ran hash node_a peer_addr first_state first_effects broken_round

abbrev broken : Service
broken = record looping { ha_task = loop_broken }

Reaches-broken : Reaches broken
Reaches-broken =
    step _ _ Reaches-looping (ha_ran looping first_state first_effects broken_round looping_task tt)

loop_broken-joined :
    joined_ha loop_broken ≡ some (some (err (loop_failed (receive_failed addr_in_use))))
unfolding joined_ha loop_ran round handle_receive_event is_transient_io_error
loop_broken-joined = refl

abbrev ended_broken : Service
ended_broken = record broken {
  shutdown_sent = true;
  main = returned (err (returned_an_error ha_runtime (loop_failed (receive_failed addr_in_use))));
}

Reaches-ended_broken : Reaches ended_broken
unfolding select handle_task_result
Reaches-ended_broken = step _ _ Reaches-broken (selected broken (by_ha _) refl loop_broken-joined)

returned_ha_error_example :
    (loop_broken ≡ refused (loop_failed (receive_failed addr_in_use)))
    ⊎ ((s : HaLoopState) × (effects : List Effect) × (error : Error) × (loop_failed
            (receive_failed addr_in_use)
          ≡ loop_failed error)
        × (loop_broken ≡ bound (failed s error) effects)
        × (s.state ≡ init)
        × (replay false effects ≡ false))
returned_ha_error_example =
    returned_ha_error hash node_a peer_addr ended_broken (loop_failed (receive_failed addr_in_use))
      Reaches-ended_broken refl

-- The node becomes active and sends, then the API fails.
abbrev send_round : Round
send_round = record {
  refreshed_at = 7_000_000_000;
  event = timer none 7_000_000_000 7_000_000_000 0;
}

abbrev active_state : HaLoopState
active_state = final_state (round hash node_a true peer_addr first_state send_round).0

abbrev active_effects : List Effect
active_effects = first_effects ++ (round hash node_a true peer_addr first_state send_round).1

abbrev loop_active : HaTask
loop_active = loop_ran hash node_a peer_addr first_state first_effects send_round

loop_active-running :
    (loop_active ≡ bound (running active_state) active_effects) × (active_state.state ≡ active)
unfolding loop_ran round initial_state handle_send_event build_packet encode wire is_blank auth_tag
    as_u8 refresh_local_state follower_deadline desired_state has_live_active_peer auth_stream
loop_active-running = (refl, refl)

abbrev api_broken : Service
api_broken = record looping {
  ha_task = loop_active;
  api_task = some (some (err (api_failed (codes "port"))));
}

Reaches-api_broken : Reaches api_broken
Reaches-api_broken =
    step _ _
      (step _ _ Reaches-looping
        (ha_ran looping first_state first_effects send_round looping_task tt))
      (api_ended (record looping { ha_task = loop_active }) (some (err (api_failed (codes "port"))))
        refl tt)

api_first-abandons_example :
    (w : Service) × Reaches w
    × (w.main ≡ returned (err (returned_an_error ha_status_api (api_failed (codes "port")))))
    × (w.ha_task ≡ bound (running active_state) active_effects)
    × (replay false active_effects ≡ true)
api_first-abandons_example =
    api_first-abandons hash node_a peer_addr api_broken active_state active_effects
      (api_failed (codes "port")) Reaches-api_broken refl loop_active-running.0
      loop_active-running.1 refl
