-- ===== src/Tests/Examples.antt =====
-- The theorems on elections, packets, receiving and the loop, applied to the nodes `a` and `b`.
use gruezi.Base.{
  ◌≡◌, ◌≢◌, ◌⊎◌, ◌↔◌, ◌<◌, ◌^◌, refl, true, false, none, some, List, [], ◌∷◌, arith, length, All,
}
use gruezi.Base.Result.{ok}
use gruezi.Base.Word.{IsByte}
use gruezi.Text.{IsText, codes}
use gruezi.Ha.Auth.{auth_tag, auth_stream}
use gruezi.Ha.Auth.Coverage.{Covered, auth_stream-injective}
use gruezi.Ha.Decision.{desired_state}
use gruezi.Ha.Decision.Failover.{ShouldBeActive, desired_state-active_iff}
use gruezi.Ha.Loop.{refresh_local_state, initial_state}
use gruezi.Ha.Loop.Invariant.{run_with_status-IsConsistent}
use gruezi.Ha.Loop.Consistent.{IsConsistent}
use gruezi.Ha.Loop.Run.{Round, timer, receive, shutdown, run_with_status}
use gruezi.Ha.Loop.Transitions.{replay, Asks, refresh-transition}
use gruezi.Ha.Loop.Vip.{final_state, run_with_status-replay}
use gruezi.Ha.Packet.{HaPacket, encode, wire}
use gruezi.Ha.Packet.Canonical.{encode-decode, IsTyped, decode-IsTyped}
use gruezi.Ha.Packet.Decode.{decode}
use gruezi.Ha.Packet.Encode.{IsEncodable}
use gruezi.Ha.Packet.RoundTrip.{decode-encode}
use gruezi.Ha.Receive.{PeerObservation, observe, handle_incoming_packet}
use gruezi.Ha.Receive.Accept.{Accepts, handle_incoming_packet_iff, advertisement_delivered}
use gruezi.Ha.State.{as_u8, init, standby, active, state_eq}
use gruezi.Ha.Status.{HaLoopState}
use gruezi.Tests.{
  hash, node_a, node_b, peer_addr, sees_a, sees_b, a-ne-b, IsText-a, IsText-g, packet_a,
  packet_a_built, packet_a_encoded,
}

desired_state-active_iff_example :
    ((desired_state node_b standby (some (sees_a active)) 0 6_000_000_000 false).state ≡ active)
    ↔ ShouldBeActive node_b standby (some (sees_a active)) 0 6_000_000_000 false
desired_state-active_iff_example =
    desired_state-active_iff node_b standby (some (sees_a active)) 0 6_000_000_000 false

packet_a_decoded : decode (wire packet_a) ≡ ok packet_a
packet_a_decoded = decode-encode packet_a (wire packet_a) IsText-a IsText-g packet_a_encoded

decode-encode_example : decode (wire packet_a) ≡ ok packet_a
decode-encode_example = decode-encode packet_a (wire packet_a) IsText-a IsText-g packet_a_encoded

wire_bytes : All IsByte (wire packet_a)
unfolding wire auth_tag as_u8 auth_stream
wire_bytes = ground arith

wire_short : length (wire packet_a) < 2 ^ 63
unfolding wire auth_tag
wire_short = omega arith

decode-IsTyped_example : IsTyped packet_a × IsEncodable packet_a
decode-IsTyped_example =
    decode-IsTyped (wire packet_a) packet_a wire_bytes wire_short packet_a_decoded

encode-decode_example : encode packet_a ≡ ok (wire packet_a)
encode-decode_example =
    encode-decode (wire packet_a) packet_a wire_bytes wire_short packet_a_decoded

-- `b` receives the first advertisement of `a` at time 7.
handle_incoming_packet_iff_example :
    (handle_incoming_packet hash node_b (wire packet_a) peer_addr 7 none
      ≡ ok (observe none packet_a 7))
    ↔ ((p : HaPacket) × (decode (wire packet_a) ≡ ok p)
        × Accepts hash node_b p
        × (observe none packet_a 7 ≡ observe none p 7))
handle_incoming_packet_iff_example =
    handle_incoming_packet_iff hash node_b (wire packet_a) peer_addr 7 none
      (observe none packet_a 7)

advertisement_delivered_example :
    (o : PeerObservation) × (handle_incoming_packet hash node_b (wire packet_a) peer_addr 7 none
      ≡ ok o)
    × (o.node_id ≡ codes "a")
    × (o.state ≡ standby)
    × (o.priority ≡ 110)
    × (o.observed_at ≡ 7)
advertisement_delivered_example =
    advertisement_delivered hash node_a node_b standby 1 packet_a (wire packet_a) peer_addr 7 none
      (record {
        version = refl;
        group_id = refl;
        auth = refl;
        other_node = a-ne-b;
        node_text = IsText-a;
        group_text = IsText-g;
      })
      packet_a_built packet_a_encoded

IsText-key : IsText (codes "key")
IsText-key = ground arith

auth_stream-injective_example : (codes "key" ≡ codes "key") × Covered packet_a packet_a
auth_stream-injective_example =
    auth_stream-injective (codes "key") (codes "key") packet_a packet_a IsText-key IsText-key
      (IsText-g, IsText-a) (IsText-g, IsText-a) refl

-- `a` in a conflict with `b`.
abbrev in_conflict : HaLoopState
in_conflict = record (initial_state node_a 0 0) {
  state = active;
  active_peer_conflict = true;
  peer_observation = some (sees_b active);
}

-- Two advertisements of `a`, a datagram of its own, and a shutdown.
abbrev a_run : List Round
a_run =
    record { refreshed_at = 6_000_000_000; event = timer none 6_000_000_000 6_000_000_000 0 }
    ∷ record {
      refreshed_at = 6_100_000_000;
      event = receive (ok (length (wire packet_a), peer_addr)) (wire packet_a) 6_100_000_000 0;
    }
    ∷ record { refreshed_at = 7_000_000_000; event = timer none 7_000_000_000 7_000_000_000 0 }
    ∷ record { refreshed_at = 7_100_000_000; event = shutdown 7_200_000_000 }
    ∷ []

run_with_status-replay_example :
    replay false (run_with_status hash node_a true peer_addr 0 0 a_run).1
    ≡ state_eq (final_state (run_with_status hash node_a true peer_addr 0 0 a_run).0).state active
run_with_status-replay_example = run_with_status-replay hash node_a true peer_addr 0 0 a_run

run_with_status-IsConsistent_example :
    IsConsistent node_a (final_state (run_with_status hash node_a true peer_addr 0 0 a_run).0)
run_with_status-IsConsistent_example =
    run_with_status-IsConsistent hash node_a true peer_addr 0 0 a_run

refresh-transition_example :
    (((refresh_local_state node_a false in_conflict 1_000_000_000).0.state ≡ active)
      × ((refresh_local_state node_a false in_conflict 1_000_000_000).0.last_transition_at
          ≡ in_conflict.last_transition_at)
      × ((refresh_local_state node_a false in_conflict 1_000_000_000).0.last_transition_reason
          ≡ in_conflict.last_transition_reason)
      × ((refresh_local_state node_a false in_conflict 1_000_000_000).1 ≡ []))
    ⊎ (((refresh_local_state node_a false in_conflict 1_000_000_000).0.state ≢ active)
        × ((refresh_local_state node_a false in_conflict 1_000_000_000).0.state ≢ init)
        × ((refresh_local_state node_a false in_conflict 1_000_000_000).0.last_transition_at
            ≡ some 1_000_000_000)
        × ((refresh_local_state node_a false in_conflict 1_000_000_000).0.last_transition_reason
            ≡ some (refresh_local_state node_a false in_conflict 1_000_000_000).0.decision_reason)
        × Asks node_a
            (refresh_local_state node_a false in_conflict 1_000_000_000).0.state
            (refresh_local_state node_a false in_conflict 1_000_000_000).1)
unfolding initial_state
refresh-transition_example = refresh-transition node_a in_conflict 1_000_000_000
