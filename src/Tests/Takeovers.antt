-- ===== src/Tests/Takeovers.antt =====
-- The theorems on takeovers and on the address machine, applied to node `a`.
use gruezi.Base.{ap, ℕ, ◌≡◌, refl, true, false, none, List, [], ◌∷◌, arith, All, some, ◌<◌, ◌≤◌}
use gruezi.Text.{is_blank, len}
use gruezi.Ha.State.{as_u8, active, state_eq}
use gruezi.Ha.Auth.{build_packet, auth_tag, auth_stream}
use gruezi.Ha.Packet.{encode, wire}
use gruezi.Ha.Decision.{desired_state, has_live_active_peer, outranks}
use gruezi.Ha.Loop.{refresh_local_state, initial_state, initialize_loop_state}
use gruezi.Ha.Loop.Handlers.{handle_send_event, reschedule}
use gruezi.Ha.Loop.Run.{round, Round, timer, shutdown, receive, rounds, run_with_status, running}
use gruezi.Ha.Loop.Vip.{final_state}
use gruezi.Tests.{hash, node_a, peer_addr}
use gruezi.Tests.Nodes.{is_running-eq}
use gruezi.Ha.Error.{connection_refused, is_transient_io_error, is_transient_send_failure}
use gruezi.Base.Result.{err}
use gruezi.Ha.Status.{HaLoopState}
use gruezi.Ha.Loop.Actions.{actions}
use gruezi.Ha.Loop.Refine.{Trace, starting, view, run_with_status-Trace}
use gruezi.Ha.Loop.Keeps.{IsSendable}
use gruezi.Ha.Loop.Steady.{rounds-steady}
use gruezi.Ha.Loop.Rests.{IsPassive}
use gruezi.Ha.Loop.Takeover.{IsQuiet, Leads, rounds-takeover}
use gruezi.Ha.Loop.Transitions.{replay}
use gruezi.Ha.Packet.Encode.{IsId}
use gruezi.Ha.Runtime.{follower_deadline, next_advert_delay, jitter_for}
use gruezi.Cluster.{sent}
use gruezi.Cluster.Numbers.{IsAdvertOf, run_with_status-numbers}
use gruezi.Ha.Loop.Bound.{gone_at, Prompt, due, TakesOver, rounds-TakesOver}

abbrev send_round : ℕ → Round
send_round t = record { refreshed_at = t; event = timer none t t 0 }

abbrev stop_round : ℕ → Round
stop_round t = record { refreshed_at = t; event = shutdown t }

-- `a` sends twice and is stopped.
abbrev a_rounds : List Round
a_rounds = send_round 7_000_000_000 ∷ send_round 8_000_000_000 ∷ stop_round 8_100_000_000 ∷ []

run_with_status-Trace_example :
    Trace starting
      (actions (run_with_status hash node_a false peer_addr 0 0 a_rounds).1)
      (view (run_with_status hash node_a false peer_addr 0 0 a_rounds).0)
run_with_status-Trace_example = run_with_status-Trace hash node_a false peer_addr 0 0 a_rounds

-- The first attempt fails, and its number is used again; the second one succeeds.
abbrev a_retries : List Round
a_retries =
    record {
      refreshed_at = 7_000_000_000;
      event = timer (some connection_refused) 7_000_000_000 7_000_000_000 0;
    }
    ∷ send_round 8_000_000_000
    ∷ []

abbrev a_retried : HaLoopState
a_retried = final_state (run_with_status hash node_a false peer_addr 0 0 a_retries).0

a_retries-run : (run_with_status hash node_a false peer_addr 0 0 a_retries).0 ≡ running a_retried
unfolding run_with_status rounds round initialize_loop_state initial_state handle_send_event
    build_packet encode is_blank auth_tag refresh_local_state follower_deadline desired_state
    is_transient_send_failure
a_retries-run =
    ap (λ x. x.0) (is_running-eq (run_with_status hash node_a false peer_addr 0 0 a_retries) refl)

run_with_status-numbers_example :
    (a_retried.sequence ≡ 1)
    × All
        (IsAdvertOf hash node_a false 2)
        (sent (round hash node_a false peer_addr a_retried (send_round 9_000_000_000)).1)
run_with_status-numbers_example =
    run_with_status-numbers hash node_a false peer_addr 0 0 a_retries a_retried
      (send_round 9_000_000_000) a_retries-run

IsId-a : IsId node_a.node_id
unfolding is_blank len
IsId-a = record { not_blank = refl; short = omega arith }

IsId-g : IsId node_a.group_id
unfolding is_blank len
IsId-g = record { not_blank = refl; short = omega arith }

IsSendable-a : IsSendable node_a
IsSendable-a = (omega arith, IsId-a, IsId-g)

-- Two sends after the startup deadline.
abbrev two_sends : List Round
two_sends = send_round 7_000_000_000 ∷ send_round 8_000_000_000 ∷ []

IsQuiet-a : All (IsQuiet hash node_a false peer_addr none 0) two_sends
unfolding follower_deadline
IsQuiet-a = ((omega arith, tt), ((omega arith, tt), tt))

rounds-takeover_example :
    Leads hash node_a false peer_addr none 0
      (rounds hash node_a false peer_addr (running (initial_state node_a 0 0)) two_sends).0
    × (replay
          (state_eq (initial_state node_a 0 0).state active)
          (rounds hash node_a false peer_addr (running (initial_state node_a 0 0)) two_sends).1
        ≡ true)
unfolding initial_state
rounds-takeover_example =
    rounds-takeover hash node_a false peer_addr none 0 (initial_state node_a 0 0)
      (send_round 7_000_000_000) (send_round 8_000_000_000 ∷ []) IsSendable-a refl refl IsQuiet-a

-- `a` is active, sends, and meets a socket error that passes.
abbrev active_a : HaLoopState
active_a = record (initial_state node_a 0 0) { state = active }

abbrev calm_rounds : List Round
calm_rounds =
    send_round 7_000_000_000
    ∷ record { refreshed_at = 7_500_000_000; event = receive (err connection_refused) [] 0 0 }
    ∷ []

rounds-steady_example :
    (s' : HaLoopState) × ((rounds hash node_a false peer_addr (running active_a) calm_rounds).0
      ≡ running s')
    × (s'.state ≡ active)
    × IsPassive s'.peer_observation
    × (actions (rounds hash node_a false peer_addr (running active_a) calm_rounds).1 ≡ [])
unfolding initial_state is_transient_io_error
rounds-steady_example =
    rounds-steady hash node_a false peer_addr active_a calm_rounds IsSendable-a refl tt
      (tt, (refl, tt))

-- `a` is about to send when the startup deadline comes, and once more after it.
abbrev waiting_a : HaLoopState
waiting_a = record (initial_state node_a 0 0) { next_advert_at = 5_500_000_000 }

abbrev about_six : List Round
about_six = send_round 5_500_000_000 ∷ send_round 6_400_000_000 ∷ []

Prompt-a : Prompt hash node_a false peer_addr none 0 0 (running waiting_a) about_six
unfolding round initial_state handle_send_event build_packet encode wire is_blank auth_tag as_u8
    refresh_local_state follower_deadline desired_state has_live_active_peer auth_stream outranks
    reschedule next_advert_delay jitter_for
Prompt-a = (omega arith, (omega arith, tt))

not_early : ¬ (All (λ i. i.refreshed_at < gone_at node_a none 0) about_six)
unfolding follower_deadline
not_early all = omega (arith, all.1.0)

soon_due : waiting_a.next_advert_at ≤ due hash node_a false peer_addr none 0 0
unfolding follower_deadline initial_state
soon_due = omega arith

rounds-TakesOver_example : TakesOver hash node_a false peer_addr none 0 0 waiting_a about_six
unfolding initial_state
rounds-TakesOver_example =
    rounds-TakesOver hash node_a false peer_addr none 0 0 waiting_a about_six IsSendable-a refl refl
      soon_due ((tt, omega arith), ((tt, omega arith), tt)) Prompt-a not_early
