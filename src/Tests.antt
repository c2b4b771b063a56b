-- ===== src/Tests.antt =====
-- Tests of the HA code at concrete inputs: two nodes `a` and `b` of one group.
mod Examples
mod Loaded
mod Systems
mod Nodes
mod Services
mod Apis
mod Commands
mod Takeovers
mod Refused
mod Stays
mod Heals
mod Replays
use gruezi.Base.{
  ℕ, ◌≡◌, ◌≢◌, ◌⊎◌, ◌<◌, ◌≤◌, inl, inr, refl, Bool, true, false, Option, none, some, List, [], ◌∷◌,
  arith, length,
}
use gruezi.Base.Result.{Result, ok, err}
use gruezi.Base.Word.{Bytes}
use gruezi.Text.{Text, IsText, codes, is_blank}
use gruezi.Hooks.{default_hooks, HaHooks}
use gruezi.Net.{SocketAddr, v4}
use gruezi.Ha.Auth.{build_packet, auth_tag}
use gruezi.Ha.Auth.Coverage.{tagged}
use gruezi.Ha.Packet.{HaPacket, encode, wire}
use gruezi.Ha.Packet.Decode.{decode}
use gruezi.Ha.Receive.{PeerObservation}
use gruezi.Ha.Runtime.{HaRuntimeConfig, HaAuth, shared}
use gruezi.Ha.State.{HaState, init, standby, active}

-- A hash for the tests: the length.
abbrev pub hash : Bytes → ℕ
hash bs = length bs

abbrev pub node : Text → ℕ → HaRuntimeConfig
node id priority = record {
  node_id = id;
  group_id = codes "g";
  bind = codes "0.0.0.0:9375";
  peer = codes "10.0.0.2:9375";
  interface = codes "eth0";
  addresses = codes "10.0.0.9/24" ∷ [];
  protocol_version = 1;
  priority = priority;
  preempt = false;
  advert_interval_ms = 1_000;
  dead_factor = 3;
  hold_down_ms = 3_000;
  jitter_ms = 100;
  auth = shared (codes "key");
  hooks = record {
    on_promote = none;
    on_demote = none;
    on_backup = none;
    on_fault = none;
    timeout_ms = 5_000;
  };
  ip_command = codes "ip";
  arping_command = codes "arping";
  ndsend_command = codes "ndsend";
}

abbrev pub node_a : HaRuntimeConfig
node_a = node (codes "a") 110

abbrev pub node_b : HaRuntimeConfig
node_b = node (codes "b") 100

abbrev pub peer_addr : SocketAddr
peer_addr = record { ip = v4 10 0 0 2; port = 9375 }

-- What `a` sees of `b`, and `b` of `a`, in a state.
abbrev pub sees_b : HaState → PeerObservation
sees_b s = record {
  node_id = codes "b";
  state = s;
  priority = 100;
  became_active = false;
  observed_at = 0;
}

abbrev pub sees_a : HaState → PeerObservation
sees_a s = record {
  node_id = codes "a";
  state = s;
  priority = 110;
  became_active = false;
  observed_at = 0;
}

pub a-ne-b : node_a.node_id ≢ node_b.node_id
a-ne-b e = ground arith

pub IsText-a : IsText node_a.node_id
IsText-a = ground arith

pub IsText-b : IsText node_b.node_id
IsText-b = ground arith

pub IsText-g : IsText node_a.group_id
IsText-g = ground arith

-- The first advertisement of `a`.
abbrev pub packet_a : HaPacket
packet_a = tagged hash node_a standby 1

pub packet_a_built : build_packet hash node_a standby 1 ≡ ok packet_a
unfolding build_packet
packet_a_built = refl

pub packet_a_encoded : encode packet_a ≡ ok (wire packet_a)
unfolding encode is_blank auth_tag
packet_a_encoded = refl
