-- ===== src/Ha/Receive.antt =====
-- `PeerObservation` and `handle_incoming_packet` of src/gruezi/ha.rs.
pub mod Accept
pub mod Misread
use gruezi.Base.{ℕ, ◌≡◌, Bool, true, false, not, ◌&&◌, Option, none, some, ◌==◌, if◌then◌else◌}
use gruezi.Base.Result.{Result, ok, err, ◌>>=◌, ◌>>◌, bail_if}
use gruezi.Base.Word.{Bytes}
use gruezi.Net.{SocketAddr}
use gruezi.Text.{Text, text_eq}
use gruezi.Ha.Auth.{verify_auth_tag}
use gruezi.Ha.Error.{Error, wrong_version, wrong_group, duplicate_node_id, authentication_failed}
use gruezi.Ha.Packet.{HaPacket}
use gruezi.Ha.Packet.Decode.{decode}
use gruezi.Ha.Runtime.{HaRuntimeConfig}
use gruezi.Ha.State.{HaState, active, state_eq}

pub record PeerObservation : Type 0 where
  pub node_id : Text
  pub state : HaState
  pub priority : ℕ
  pub became_active : Bool
  pub observed_at : ℕ

-- The state in which the sender of a packet was last seen, if it was seen last.
unfoldable pub previous_peer_state : Option PeerObservation → HaPacket → Option HaState
previous_peer_state none packet = none
previous_peer_state (some o) packet =
    if text_eq o.node_id packet.node_id then some o.state else none

-- `matches!(previous, Some(state) if state != HaState::Active)`
abbrev was_not_active : Option HaState → Bool
was_not_active none = false
was_not_active (some s) = not (state_eq s active)

-- What is kept of an accepted packet.
unfoldable pub observe : Option PeerObservation → HaPacket → ℕ → PeerObservation
unfolding previous_peer_state
observe seen packet observed_at = record {
  node_id = packet.node_id;
  state = packet.state;
  priority = packet.priority;
  became_active = state_eq packet.state active && was_not_active (previous_peer_state seen packet);
  observed_at = observed_at;
}

module _ (hash : Bytes → ℕ) where
  -- The four tests on a decoded packet, in their order.
  unfoldable pub check_packet : HaRuntimeConfig → HaPacket → SocketAddr → Result Error (Unit {0})
  check_packet r packet from = do
    bail_if (not (packet.protocol_version == r.protocol_version))
        (wrong_version packet.protocol_version from)
    bail_if (not (text_eq packet.group_id r.group_id)) (wrong_group packet.group_id)
    bail_if (text_eq packet.node_id r.node_id) duplicate_node_id
    bail_if (not (verify_auth_tag hash r packet)) authentication_failed

  -- `handle_incoming_packet`: the new observation, or an error that leaves the old one.
  unfoldable pub handle_incoming_packet :
      HaRuntimeConfig
      → Bytes
      → SocketAddr
      → ℕ
      → Option PeerObservation
      → Result Error PeerObservation
  unfolding check_packet observe
  handle_incoming_packet r payload from observed_at seen = do
    packet ← decode payload
    check_packet r packet from
    ok (observe seen packet observed_at)
