-- ===== src/Tests/Nodes.antt =====
-- The theorems on the cluster, applied to runs of `a` and `b`: each sends one advertisement, then
-- each receives the other's. If they send after one second, both are in standby; after seven, each
-- has waited for the other in vain and is active.
use gruezi.Base.{
  ℕ, ◌+◌, ◌≡◌, ◌≢◌, ◌⊎◌, ◌<◌, inl, inr, refl, sym, ◌∙◌, Bool, true, false, none, some, List, [],
  ◌∷◌, ◌++◌, arith, length,
}
use gruezi.Base.Result.{ok}
use gruezi.Base.Word.{Bytes}
use gruezi.Text.{is_blank}
use gruezi.Cluster.{Cluster, sent, Reachable, start, step, step_a, step_b}
use gruezi.Cluster.Safety.{
  AreTexts, IsKnown, Reachable-IsKnown, reachable_election, reachable_dual_active,
}
use gruezi.Ha.Auth.Coverage.{tagged}
use gruezi.Ha.Cursor.{
  read_exact, read_u8, read_u16, read_u32, read_u64, read_string, read_vec, is_at_end,
}
use gruezi.Text.Utf8.{from_utf8}
use gruezi.Ha.Loop.{Effect, refresh_local_state, decision_of, initial_state}
use gruezi.Ha.Loop.Handlers.{handle_send_event, handle_receive_event}
use gruezi.Ha.Loop.Run.{
  Round, timer, receive, shutdown, run_with_status, Outcome, running, stopped, failed, round,
}
use gruezi.Ha.Loop.Transitions.{replay}
use gruezi.Ha.Loop.Vip.{final_state, Ended, run_with_status-Ended}
use gruezi.Ha.Packet.{wire, encode}
use gruezi.Ha.Auth.{build_packet, auth_stream, auth_tag, verify_auth_tag}
use gruezi.Ha.Packet.Decode.{decode}
use gruezi.Ha.Decision.{desired_state, outranks, has_live_active_peer}
use gruezi.Ha.Receive.{PeerObservation, handle_incoming_packet, observe}
use gruezi.Ha.Runtime.{follower_deadline}
use gruezi.Ha.State.{as_u8, try_from_u8, HaState, init, standby, active}
use gruezi.Ha.Status.{HaLoopState}
use gruezi.Tests.{
  hash, node_a, node_b, peer_addr, a-ne-b, IsText-a, IsText-b, IsText-g, sees_a, sees_b,
}

abbrev is_running : Outcome → Bool
is_running (running s) = true
is_running (stopped s) = false
is_running (failed s e) = false

pub is_running-eq :
    (x : Outcome × List Effect) → is_running x.0 ≡ true → x ≡ (running (final_state x.0), x.1)
is_running-eq (running s, es) h = refl
is_running-eq (stopped s, es) h = absurd (cc h)
is_running-eq (failed s e, es) h = absurd (cc h)

abbrev pub send_round : ℕ → Round
send_round t = record { refreshed_at = t; event = timer none t t 0 }

abbrev pub receive_round : ℕ → Bytes → Round
receive_round t bs = record { refreshed_at = t; event = receive (ok (length bs, peer_addr)) bs t 0 }

abbrev round_a : HaLoopState → Round → Outcome × List Effect
round_a s i = round hash node_a false peer_addr s i

abbrev round_b : HaLoopState → Round → Outcome × List Effect
round_b s i = round hash node_b false peer_addr s i

abbrev after_a : Cluster → Round → Cluster
after_a c i = record c {
  state_a = final_state (round_a c.state_a i).0;
  network = sent (round_a c.state_a i).1 ++ c.network;
}

abbrev after_b : Cluster → Round → Cluster
after_b c i = record c {
  state_b = final_state (round_b c.state_b i).0;
  network = sent (round_b c.state_b i).1 ++ c.network;
}

abbrev at_start : Cluster
at_start = record {
  state_a = initial_state node_a 0 0;
  state_b = initial_state node_b 0 0;
  network = [];
}

abbrev both_sent : ℕ → Cluster
both_sent t = after_b (after_a at_start (send_round t)) (send_round t)

abbrev both_received : ℕ → HaState → Cluster
both_received t s =
    after_b (after_a (both_sent t) (receive_round (t + 1) (wire (tagged hash node_b s 1))))
      (receive_round (t + 1) (wire (tagged hash node_a s 1)))

abbrev Reached : Cluster → Type 0
Reached c = Reachable hash node_a node_b false false peer_addr peer_addr c

Reached-early : Reached (both_received 1_000_000_000 standby)
unfolding round initial_state handle_send_event handle_receive_event handle_incoming_packet
    build_packet encode wire is_blank auth_tag as_u8 refresh_local_state follower_deadline decode
    verify_auth_tag outranks has_live_active_peer observe desired_state read_exact read_u8
    try_from_u8 read_u32 read_u64 read_string from_utf8 read_u16 read_vec is_at_end auth_stream
Reached-early =
    step _ _
      (step _ _
        (step _ _
          (step _ _ (start 0 0 0 0)
            (step_a at_start (send_round 1_000_000_000) _ _ tt (is_running-eq _ refl)))
          (step_b _ (send_round 1_000_000_000) _ _ tt (is_running-eq _ refl)))
        (step_a _ (receive_round 1_000_000_001 (wire (tagged hash node_b standby 1))) _ _ (inl refl)
          (is_running-eq _ refl)))
      (step_b _ (receive_round 1_000_000_001 (wire (tagged hash node_a standby 1))) _ _
        (inr (inl refl)) (is_running-eq _ refl))

Reached-late : Reached (both_received 7_000_000_000 active)
unfolding round initial_state handle_send_event handle_receive_event handle_incoming_packet
    build_packet encode wire is_blank auth_tag as_u8 refresh_local_state follower_deadline decode
    verify_auth_tag outranks has_live_active_peer observe desired_state read_exact read_u8
    try_from_u8 read_u32 read_u64 read_string from_utf8 read_u16 read_vec is_at_end auth_stream
Reached-late =
    step _ _
      (step _ _
        (step _ _
          (step _ _ (start 0 0 0 0)
            (step_a at_start (send_round 7_000_000_000) _ _ tt (is_running-eq _ refl)))
          (step_b _ (send_round 7_000_000_000) _ _ tt (is_running-eq _ refl)))
        (step_a _ (receive_round 7_000_000_001 (wire (tagged hash node_b active 1))) _ _ (inl refl)
          (is_running-eq _ refl)))
      (step_b _ (receive_round 7_000_000_001 (wire (tagged hash node_a active 1))) _ _
        (inr (inl refl)) (is_running-eq _ refl))

texts : AreTexts node_a node_b
texts = record { node_a = IsText-a; node_b = IsText-b; group_a = IsText-g; group_b = IsText-g }

Reachable-IsKnown_example : IsKnown hash node_a node_b (both_received 1_000_000_000 standby)
Reachable-IsKnown_example =
    Reachable-IsKnown hash node_a node_b false false peer_addr peer_addr texts
      (both_received 1_000_000_000 standby) Reached-early

abbrev a_saw_early : PeerObservation
a_saw_early = record (sees_b standby) { observed_at = 1_000_000_001 }

a_live_early : 1_000_000_001 < follower_deadline node_a a_saw_early.observed_at
unfolding follower_deadline
a_live_early = omega arith

abbrev b_saw_early : PeerObservation
b_saw_early = record (sees_a standby) { observed_at = 1_000_000_001 }

b_live_early : 1_000_000_001 < follower_deadline node_b b_saw_early.observed_at
unfolding follower_deadline
b_live_early = omega arith

early_states :
    ((both_received 1_000_000_000 standby).state_a.peer_observation ≡ some a_saw_early)
    × ((both_received 1_000_000_000 standby).state_b.peer_observation ≡ some b_saw_early)
    × ((both_received 1_000_000_000 standby).state_a.state ≡ standby)
    × ((both_received 1_000_000_000 standby).state_b.state ≡ standby)
unfolding round initial_state handle_send_event handle_receive_event handle_incoming_packet
    build_packet encode wire is_blank auth_tag as_u8 refresh_local_state follower_deadline decode
    verify_auth_tag outranks has_live_active_peer observe desired_state read_exact read_u8
    try_from_u8 read_u32 read_u64 read_string from_utf8 read_u16 read_vec is_at_end auth_stream
early_states = (refl, refl, refl, refl)

abbrev a_saw_late : PeerObservation
a_saw_late = record (sees_b active) { observed_at = 7_000_000_001 }

a_live_late : 7_000_000_001 < follower_deadline node_a a_saw_late.observed_at
unfolding follower_deadline
a_live_late = omega arith

abbrev b_saw_late : PeerObservation
b_saw_late = record (sees_a active) { observed_at = 7_000_000_001 }

b_live_late : 7_000_000_001 < follower_deadline node_b b_saw_late.observed_at
unfolding follower_deadline
b_live_late = omega arith

late_states :
    ((both_received 7_000_000_000 active).state_a.peer_observation ≡ some a_saw_late)
    × ((both_received 7_000_000_000 active).state_b.peer_observation ≡ some b_saw_late)
    × ((both_received 7_000_000_000 active).state_a.state ≡ active)
    × ((both_received 7_000_000_000 active).state_b.state ≡ active)
unfolding round initial_state handle_send_event handle_receive_event handle_incoming_packet
    build_packet encode wire is_blank auth_tag as_u8 refresh_local_state follower_deadline decode
    verify_auth_tag outranks has_live_active_peer observe desired_state read_exact read_u8
    try_from_u8 read_u32 read_u64 read_string from_utf8 read_u16 read_vec is_at_end auth_stream
late_states = (refl, refl, refl, refl)

standby-ne-active : standby ≢ active
standby-ne-active e = cc e

reachable_election_example :
    (((decision_of node_a (both_received 1_000_000_000 standby).state_a 1_000_000_001).state
        ≡ active)
      × ((decision_of node_b (both_received 1_000_000_000 standby).state_b 1_000_000_001).state
          ≡ standby))
    ⊎ (((decision_of node_a (both_received 1_000_000_000 standby).state_a 1_000_000_001).state
          ≡ standby)
        × ((decision_of node_b (both_received 1_000_000_000 standby).state_b 1_000_000_001).state
            ≡ active))
reachable_election_example =
    reachable_election hash node_a node_b false false peer_addr peer_addr texts a-ne-b
      (both_received 1_000_000_000 standby) Reached-early a_saw_early b_saw_early early_states.0
      early_states.1 1_000_000_001 1_000_000_001 a_live_early b_live_early
      (λ e. standby-ne-active (sym early_states.2 ∙ e))
      (λ e. standby-ne-active (sym early_states.3 ∙ e)) standby-ne-active standby-ne-active

reachable_dual_active_example : ¬ (
    ((decision_of node_a (both_received 7_000_000_000 active).state_a 7_000_000_001).state ≡ active)
    × ((decision_of node_b (both_received 7_000_000_000 active).state_b 7_000_000_001).state
        ≡ active))
reachable_dual_active_example =
    reachable_dual_active hash node_a node_b false false peer_addr peer_addr texts a-ne-b
      (both_received 7_000_000_000 active) Reached-late a_saw_late b_saw_late late_states.0
      late_states.1 7_000_000_001 7_000_000_001 a_live_late b_live_late refl refl

-- `a` sends twice and is stopped.
abbrev a_stops : List Round
a_stops =
    send_round 7_000_000_000
    ∷ send_round 8_000_000_000
    ∷ record { refreshed_at = 8_100_000_000; event = shutdown 8_100_000_000 }
    ∷ []

a_ends : Ended (run_with_status hash node_a false peer_addr 0 0 a_stops).0
unfolding run_with_status round initial_state handle_send_event handle_receive_event
    handle_incoming_packet build_packet encode wire is_blank auth_tag as_u8 refresh_local_state
    follower_deadline decode verify_auth_tag outranks has_live_active_peer observe desired_state
    read_exact read_u8 try_from_u8 read_u32 read_u64 read_string from_utf8 read_u16 read_vec
    is_at_end auth_stream
a_ends = tt

run_with_status-Ended_example :
    ((final_state (run_with_status hash node_a false peer_addr 0 0 a_stops).0).state ≡ init)
    × (replay false (run_with_status hash node_a false peer_addr 0 0 a_stops).1 ≡ false)
run_with_status-Ended_example = run_with_status-Ended hash node_a false peer_addr 0 0 a_stops a_ends
