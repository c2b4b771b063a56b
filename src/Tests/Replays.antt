-- ===== src/Tests/Replays.antt =====
-- One recorded advertisement of the active node `a` keeps `b` from taking over.
use gruezi.Base.{◌≡◌, ◌≢◌, refl, false, none, some, List, [], ◌∷◌, map, All, length, arith}
use gruezi.Base.Result.{ok}
use gruezi.Base.Word.{Bytes}
use gruezi.Text.{is_blank}
use gruezi.Addresses.{remove}
use gruezi.Cluster.Exchange.{Arrival, arrive}
use gruezi.Cluster.Replay.{Replays, replayed_follows}
use gruezi.Ha.Auth.{auth_stream, auth_tag, verify_auth_tag}
use gruezi.Ha.Auth.Coverage.{tagged}
use gruezi.Ha.Cursor.{
  read_exact, read_u8, read_u16, read_u32, read_u64, read_string, read_vec, is_at_end,
}
use gruezi.Ha.Loop.{initial_state}
use gruezi.Ha.Loop.Actions.{actions}
use gruezi.Ha.Loop.Run.{rounds, running}
use gruezi.Ha.Loop.Vip.{final_state}
use gruezi.Ha.Packet.{wire}
use gruezi.Ha.Packet.Decode.{decode}
use gruezi.Ha.Receive.{PeerObservation, handle_incoming_packet, observe}
use gruezi.Ha.Runtime.{follower_deadline}
use gruezi.Ha.State.{as_u8, try_from_u8, standby, active}
use gruezi.Ha.Status.{HaLoopState}
use gruezi.Text.Utf8.{from_utf8}
use gruezi.Tests.{hash, node_a, node_b, peer_addr, sees_a}

abbrev recorded : Bytes
recorded = wire (tagged hash node_a active 1)

abbrev heard_once : PeerObservation
heard_once = record (sees_a active) { observed_at = 1 }

recorded-accepted : handle_incoming_packet hash node_b recorded peer_addr 1 none ≡ ok heard_once
unfolding handle_incoming_packet wire auth_tag as_u8 decode verify_auth_tag observe read_exact
    read_u8 try_from_u8 read_u32 read_u64 read_string from_utf8 read_u16 read_vec is_at_end
    auth_stream is_blank
recorded-accepted = refl

abbrev following_b : HaLoopState
following_b = record (initial_state node_b 0 0) {
  state = standby;
  peer_observation = some heard_once;
}

-- Five seconds, and ten seconds, after it was sent.
abbrev delivered : List Arrival
delivered =
    record {
      refreshed_at = 5_000_000_000;
      size = length recorded;
      from = peer_addr;
      buffer = recorded;
      now = 5_000_000_000;
      cleanup_at = 0;
    }
    ∷ record {
      refreshed_at = 10_000_000_000;
      size = length recorded;
      from = peer_addr;
      buffer = recorded;
      now = 10_000_000_000;
      cleanup_at = 0;
    }
    ∷ []

delivered_again : Replays hash node_b recorded 1 delivered
unfolding follower_deadline wire auth_tag
delivered_again = (omega arith, refl, refl, (omega arith, refl, refl, tt))

standby-ne-active : standby ≢ active
standby-ne-active e = cc e

replayed_follows_example :
    All
      (λ x. x ≡ remove)
      (actions (rounds hash node_b false peer_addr (running following_b) (map arrive delivered)).1)
    × ((final_state
          (rounds hash node_b false peer_addr (running following_b) (map arrive delivered)).0).state
        ≢ active)
unfolding initial_state
replayed_follows_example =
    replayed_follows hash node_b false peer_addr recorded peer_addr 1 none heard_once
      recorded-accepted refl following_b heard_once delivered refl standby-ne-active refl refl
      delivered_again
