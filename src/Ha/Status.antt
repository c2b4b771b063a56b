-- ===== src/Ha/Status.antt =====
-- `HaLoopState`, `HaStatus` and `status_snapshot` of src/gruezi/ha.rs.
use gruezi.Base.{ℕ, Bool, false, Option, none, is_some}
use gruezi.Base.Duration.{duration_millis_u64, saturating_elapsed_ms}
use gruezi.Text.{Text}
use gruezi.Ha.Decision.{live_peer}
use gruezi.Ha.Receive.{PeerObservation}
use gruezi.Ha.Runtime.{HaRuntimeConfig, dead_timeout}
use gruezi.Ha.State.{HaState, init, HaDecisionReason, startup}
use mathlib.Core.Option

pub record HaCounters : Type 0 where
  pub packets_sent : ℕ
  pub packets_received : ℕ
  pub invalid_packets : ℕ
  pub auth_failures : ℕ
  pub duplicate_node_id_packets : ℕ

-- `HaCounters::default`
abbrev pub default_counters : HaCounters
default_counters = record {
  packets_sent = 0;
  packets_received = 0;
  invalid_packets = 0;
  auth_failures = 0;
  duplicate_node_id_packets = 0;
}

pub record HaLoopState : Type 0 where
  pub startup_at : ℕ
  pub sequence : ℕ
  pub state : HaState
  pub active_peer_conflict : Bool
  pub decision_reason : HaDecisionReason
  pub last_transition_reason : Option HaDecisionReason
  pub last_transition_at : Option ℕ
  pub peer_observation : Option PeerObservation
  pub counters : HaCounters
  pub next_advert_at : ℕ

pub record HaStatus : Type 0 where
  pub node_id : Text
  pub group_id : Text
  pub bind : Text
  pub peer : Text
  pub state : HaState
  pub priority : ℕ
  pub advert_interval_ms : ℕ
  pub dead_timeout_ms : ℕ
  pub hold_down_ms : ℕ
  pub sequence : ℕ
  pub peer_node_id : Option Text
  pub peer_state : Option HaState
  pub peer_alive : Bool
  pub last_peer_seen_ms_ago : Option ℕ
  pub packets_sent : ℕ
  pub packets_received : ℕ
  pub invalid_packets : ℕ
  pub auth_failures : ℕ
  pub duplicate_node_id_packets : ℕ
  pub decision_reason : HaDecisionReason
  pub last_transition_reason : Option HaDecisionReason
  pub last_transition_ms_ago : Option ℕ

-- `HaStatus::new`
unfoldable pub new_status : Text → Text → Text → Text → HaStatus
new_status node_id group_id bind peer = record {
  node_id = node_id;
  group_id = group_id;
  bind = bind;
  peer = peer;
  state = init;
  priority = 0;
  advert_interval_ms = 0;
  dead_timeout_ms = 0;
  hold_down_ms = 0;
  sequence = 0;
  peer_node_id = none;
  peer_state = none;
  peer_alive = false;
  last_peer_seen_ms_ago = none;
  packets_sent = 0;
  packets_received = 0;
  invalid_packets = 0;
  auth_failures = 0;
  duplicate_node_id_packets = 0;
  decision_reason = startup;
  last_transition_reason = none;
  last_transition_ms_ago = none;
}

-- `status_snapshot`
unfoldable pub status_snapshot : HaRuntimeConfig → HaLoopState → ℕ → HaStatus
status_snapshot r s now = record {
  node_id = r.node_id;
  group_id = r.group_id;
  bind = r.bind;
  peer = r.peer;
  state = s.state;
  priority = r.priority;
  advert_interval_ms = r.advert_interval_ms;
  dead_timeout_ms = duration_millis_u64 (dead_timeout r);
  hold_down_ms = r.hold_down_ms;
  sequence = s.sequence;
  peer_node_id = Option.map (λ o. o.node_id) s.peer_observation;
  peer_state = Option.map (λ o. o.state) s.peer_observation;
  peer_alive = is_some (live_peer r now s.peer_observation);
  last_peer_seen_ms_ago =
      Option.map (λ o. saturating_elapsed_ms now o.observed_at) s.peer_observation;
  packets_sent = s.counters.packets_sent;
  packets_received = s.counters.packets_received;
  invalid_packets = s.counters.invalid_packets;
  auth_failures = s.counters.auth_failures;
  duplicate_node_id_packets = s.counters.duplicate_node_id_packets;
  decision_reason = s.decision_reason;
  last_transition_reason = s.last_transition_reason;
  last_transition_ms_ago = Option.map (λ t. saturating_elapsed_ms now t) s.last_transition_at;
}
