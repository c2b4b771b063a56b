-- ===== src/Tests/Stays.antt =====
-- A run of two nodes in which the one with the lower priority is active, and stays so: it started
-- first and waited for a peer in vain, and the other one heard it when it started.
use gruezi.Base.{inl, inr, arith, refl, false, [], ◌++◌}
use gruezi.Text.{is_blank}
use gruezi.Cluster.{Cluster, sent, step_a, step_b}
use gruezi.Cluster.Safety.{AreTexts}
use gruezi.Cluster.Stable.{IsStable, Timely, none_more, then, Timely-IsStable}
use gruezi.Ha.Auth.Coverage.{tagged}
use gruezi.Ha.Cursor.{
  read_exact, read_u8, read_u16, read_u32, read_u64, read_string, read_vec, is_at_end,
}
use gruezi.Text.Utf8.{from_utf8}
use gruezi.Ha.Loop.{refresh_local_state, initial_state}
use gruezi.Ha.Loop.Handlers.{handle_send_event, handle_receive_event}
use gruezi.Ha.Loop.Run.{Round, round}
use gruezi.Ha.Loop.Vip.{final_state}
use gruezi.Ha.Packet.{wire, encode}
use gruezi.Ha.Auth.{build_packet, auth_stream, auth_tag, verify_auth_tag}
use gruezi.Ha.Packet.Decode.{decode}
use gruezi.Ha.Decision.{desired_state, outranks, has_live_active_peer}
use gruezi.Ha.Receive.{handle_incoming_packet, observe}
use gruezi.Ha.Runtime.{follower_deadline}
use gruezi.Ha.State.{as_u8, try_from_u8, standby, active}
use gruezi.Tests.{hash, node_a, node_b, peer_addr, IsText-a, IsText-b, IsText-g}
use gruezi.Tests.Nodes.{is_running-eq, send_round, receive_round}

-- `b` is the first node of the cluster, and `a` the second one.
abbrev after_first : Cluster → Round → Cluster
after_first c i =
    let (o, es) = round hash node_b false peer_addr c.state_a i in
    record c { state_a = final_state o; network = sent es ++ c.network }

abbrev after_second : Cluster → Round → Cluster
after_second c i =
    let (o, es) = round hash node_a false peer_addr c.state_b i in
    record c { state_b = final_state o; network = sent es ++ c.network }

-- `b` sends after seven seconds, and `a` started after six.
abbrev led : Cluster
led =
    after_first
      (record {
        state_a = initial_state node_b 0 0;
        state_b = initial_state node_a 6_000_000_000 0;
        network = [];
      })
      (send_round 7_000_000_000)

-- `a` receives what `b` sent.
abbrev heard : Cluster
heard = after_second led (receive_round 7_000_000_001 (wire (tagged hash node_b active 1)))

-- Then `a` sends, and `b` receives it.
abbrev after_answer : Cluster
after_answer =
    after_first (after_second heard (send_round 7_500_000_000))
      (receive_round 7_600_000_000 (wire (tagged hash node_a standby 1)))

texts : AreTexts node_b node_a
texts = record { node_a = IsText-b; node_b = IsText-a; group_a = IsText-g; group_b = IsText-g }

led-IsStable : IsStable hash node_b node_a led
unfolding round initial_state handle_send_event handle_receive_event handle_incoming_packet
    build_packet encode wire is_blank auth_tag as_u8 refresh_local_state follower_deadline decode
    verify_auth_tag outranks has_live_active_peer observe desired_state read_exact read_u8
    try_from_u8 read_u32 read_u64 read_string from_utf8 read_u16 read_vec is_at_end auth_stream
led-IsStable = record {
  active_a = refl;
  passive_a = tt;
  rests_b = λ e. cc e;
  seen_by_b = tt;
  network = (inl (active, (1, refl)), tt);
}

led-after_answer : Timely hash node_b node_a false false peer_addr peer_addr led after_answer
unfolding round initial_state handle_send_event handle_receive_event handle_incoming_packet
    build_packet encode wire is_blank auth_tag as_u8 refresh_local_state follower_deadline decode
    verify_auth_tag outranks has_live_active_peer observe desired_state read_exact read_u8
    try_from_u8 read_u32 read_u64 read_string from_utf8 read_u16 read_vec is_at_end auth_stream
led-after_answer =
    then _ _ _
      (then _ _ _
        (then _ _ _ (none_more led)
          (step_b led (receive_round 7_000_000_001 (wire (tagged hash node_b active 1))) _ _
            (inl refl) (is_running-eq _ refl))
          (inl (record { unseen = refl; early = omega arith })))
        (step_b heard (send_round 7_500_000_000) _ _ tt (is_running-eq _ refl))
        (inr (record { peer = _; saw = refl; live = omega arith; defers = inr (refl, refl) })))
      (step_a _ (receive_round 7_600_000_000 (wire (tagged hash node_a standby 1))) _ _ (inl refl)
        (is_running-eq _ refl))
      tt

Timely-IsStable_example : IsStable hash node_b node_a after_answer
Timely-IsStable_example =
    Timely-IsStable hash node_b node_a false false peer_addr peer_addr texts led after_answer
      led-after_answer led-IsStable
