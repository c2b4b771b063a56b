-- ===== src/Tests/Heals.antt =====
-- Two ways in which two nodes meet: both are active and each saw the other active, or both start.
-- Each hears the other, and the one that outranks the other alone is active.
use gruezi.Base.{ℕ, ◌≡◌, inl, inr, [], ◌++◌, refl, true, false, some, length, arith}
use gruezi.Text.{is_blank, len, text_eq}
use gruezi.Cluster.Exchange.{Tick, Exchange, exchange}
use gruezi.Cluster.Healing.{ArePeers, AreHeard, IsFollower, IsWaiting, exchange-elects}
use gruezi.Cluster.Settles.{met, exchange-IsStable}
use gruezi.Cluster.Stable.{IsStable, Timely, none_more, then}
use gruezi.Cluster.{Cluster, sent, step_a, step_b}
use gruezi.Ha.Loop.Vip.{final_state}
use gruezi.Tests.Nodes.{is_running-eq, send_round, receive_round}
use gruezi.Ha.Auth.Coverage.{tagged}
use gruezi.Ha.Decision.{desired_state, outranks, has_live_active_peer}
use gruezi.Ha.Loop.{refresh_local_state, initial_state}
use gruezi.Ha.Loop.Handlers.{handle_send_event, handle_receive_event}
use gruezi.Ha.Loop.Run.{round, rounds, running}
use gruezi.Ha.Loop.Transitions.{replay}
use gruezi.Ha.Cursor.{
  read_exact, read_u8, read_u16, read_u32, read_u64, read_string, read_vec, is_at_end,
}
use gruezi.Text.Utf8.{from_utf8}
use gruezi.Ha.Packet.Decode.{decode}
use gruezi.Ha.Receive.{handle_incoming_packet, observe}
use gruezi.Ha.Packet.{wire, encode}
use gruezi.Ha.Packet.Encode.{IsId}
use gruezi.Ha.Auth.{build_packet, auth_stream, auth_tag, verify_auth_tag}
use gruezi.Ha.Runtime.{follower_deadline, HaRuntimeConfig}
use gruezi.Ha.State.{as_u8, try_from_u8, standby, active, state_eq}
use gruezi.Ha.Status.{HaLoopState}
use gruezi.Tests.{hash, node_a, node_b, peer_addr, IsText-a, IsText-b, IsText-g, sees_a, sees_b}

abbrev split_a : HaLoopState
split_a = record (initial_state node_a 0 0) {
  state = active;
  peer_observation = some (sees_b active);
}

abbrev split_b : HaLoopState
split_b = record (initial_state node_b 0 0) {
  state = active;
  peer_observation = some (sees_a active);
}

abbrev at : ℕ → Tick
at t = record { refreshed_at = t; tokio_now = t; now = t; cleanup_at = 0 }

abbrev meets : HaRuntimeConfig → Exchange
meets peer = record {
  sends = at 1_000_000_000;
  hears = record {
    refreshed_at = 1_000_000_001;
    size = length (wire (tagged hash peer standby 1));
    from = peer_addr;
    buffer = wire (tagged hash peer standby 1);
    now = 1_100_000_000;
    cleanup_at = 0;
  };
  sends_again = at 2_000_000_000;
}

IsId-a : IsId node_a.node_id
unfolding is_blank len
IsId-a = record { not_blank = refl; short = omega arith }

IsId-b : IsId node_b.node_id
unfolding is_blank len
IsId-b = record { not_blank = refl; short = omega arith }

IsId-g : IsId node_a.group_id
unfolding is_blank len
IsId-g = record { not_blank = refl; short = omega arith }

peers : ArePeers hash node_a node_b
unfolding outranks
peers = record {
  sendable_a = (omega arith, IsId-a, IsId-g);
  sendable_b = (omega arith, IsId-b, IsId-g);
  a_to_b = record {
    version = refl;
    group_id = refl;
    auth = refl;
    other_node = λ e. ground arith;
    node_text = IsText-a;
    group_text = IsText-g;
  };
  b_to_a = record {
    version = refl;
    group_id = refl;
    auth = refl;
    other_node = λ e. ground arith;
    node_text = IsText-b;
    group_text = IsText-g;
  };
  ranks = refl;
}

follower :
    IsFollower hash node_a node_b false false peer_addr peer_addr split_a split_b
      (meets node_b)
      (meets node_a)
unfolding follower_deadline
follower = record {
  peer = sees_a active;
  seen = refl;
  sees = record { node_id = refl; priority = refl; live = omega arith };
  sees_still = omega arith;
  yields = inr refl;
}

heard :
    AreHeard hash node_a node_b false false peer_addr peer_addr split_a split_b
      (meets node_b)
      (meets node_a)
unfolding round initial_state handle_send_event build_packet encode wire is_blank auth_tag as_u8
    refresh_local_state follower_deadline desired_state has_live_active_peer auth_stream outranks
heard = record {
  fits_a = refl;
  fits_b = refl;
  by_a = refl;
  by_b = refl;
  live_a = omega arith;
  live_b = omega arith;
}

exchange-elects_example :
    (sa' : HaLoopState) × (sb' : HaLoopState) × ((rounds hash node_a false peer_addr
        (running split_a)
        (exchange (meets node_b))).0
      ≡ running sa')
    × ((rounds hash node_b false peer_addr (running split_b) (exchange (meets node_a))).0
        ≡ running sb')
    × (sa'.state ≡ active)
    × (sb'.state ≡ standby)
    × (replay
          (state_eq split_a.state active)
          (rounds hash node_a false peer_addr (running split_a) (exchange (meets node_b))).1
        ≡ true)
    × (replay
          (state_eq split_b.state active)
          (rounds hash node_b false peer_addr (running split_b) (exchange (meets node_a))).1
        ≡ false)
unfolding initial_state
exchange-elects_example =
    exchange-elects hash node_a node_b false false peer_addr peer_addr split_a split_b
      (meets node_b) (meets node_a) peers (inr follower) heard

-- Both nodes start, and hear one another before they waited for a peer in vain.
abbrev started_a : HaLoopState
started_a = initial_state node_a 0 0

abbrev started_b : HaLoopState
started_b = initial_state node_b 0 0

waiting :
    IsWaiting hash node_a node_b false false peer_addr peer_addr started_a started_b
      (meets node_b)
      (meets node_a)
unfolding follower_deadline initial_state
waiting = record {
  unseen = refl;
  not_active = λ e. cc e;
  early = omega arith;
  early_still = omega arith;
}

started_heard :
    AreHeard hash node_a node_b false false peer_addr peer_addr started_a started_b
      (meets node_b)
      (meets node_a)
unfolding round initial_state handle_send_event build_packet encode wire is_blank auth_tag as_u8
    refresh_local_state follower_deadline desired_state has_live_active_peer auth_stream outranks
started_heard = record {
  fits_a = refl;
  fits_b = refl;
  by_a = refl;
  by_b = refl;
  live_a = omega arith;
  live_b = omega arith;
}

abbrev started_met : Cluster
started_met =
    met hash node_a node_b false false peer_addr peer_addr started_a started_b (meets node_b)
      (meets node_a) []
      (final_state
        (rounds hash node_a false peer_addr (running started_a) (exchange (meets node_b))).0)
      (final_state
        (rounds hash node_b false peer_addr (running started_b) (exchange (meets node_a))).0)

-- `b` sends after the exchange, and `a` receives what `b` sent first.
abbrev after_sending : Cluster
after_sending =
    let (o, es) =
      round hash node_b false peer_addr started_met.state_b (send_round 2_500_000_000) in
    record started_met { state_b = final_state o; network = sent es ++ started_met.network }

abbrev later : Cluster
later =
    let (o, es) =
      round hash node_a false peer_addr after_sending.state_a
        (receive_round 2_600_000_000 (wire (tagged hash node_b standby 1))) in
    record after_sending { state_a = final_state o; network = sent es ++ after_sending.network }

settled : Timely hash node_a node_b false false peer_addr peer_addr started_met later
unfolding round initial_state handle_send_event build_packet encode wire is_blank auth_tag as_u8
    refresh_local_state follower_deadline desired_state has_live_active_peer auth_stream outranks
    rounds handle_receive_event handle_incoming_packet decode read_exact text_eq read_u8 try_from_u8
    read_u32 read_u64 read_string from_utf8 read_u16 read_vec is_at_end verify_auth_tag observe
settled =
    then _ _ _
      (then _ _ _ (none_more started_met)
        (step_b started_met (send_round 2_500_000_000) _ _ tt (is_running-eq _ refl))
        (inr (record { peer = _; saw = refl; live = omega arith; defers = inl refl })))
      (step_a _ (receive_round 2_600_000_000 (wire (tagged hash node_b standby 1))) _ _
        (inr (inr (inr (inl refl)))) (is_running-eq _ refl))
      tt

exchange-IsStable_example : IsStable hash node_a node_b later
unfolding round initial_state handle_send_event build_packet encode wire is_blank auth_tag as_u8
    refresh_local_state follower_deadline desired_state has_live_active_peer auth_stream outranks
    rounds handle_receive_event
exchange-IsStable_example =
    exchange-IsStable hash node_a node_b false false peer_addr peer_addr started_a started_b
      (meets node_b) (meets node_a) [] started_met.state_a started_met.state_b later peers
      (inl waiting) started_heard tt refl refl settled
