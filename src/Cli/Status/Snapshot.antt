-- ===== src/Cli/Status/Snapshot.antt =====
-- What the lines of the status action of src/cli/actions/status.rs tell.
use gruezi.Cli.Status.Printed.{
  millis_injective, optional_millis, state_injective, optional_state, as_str_injective,
  optional_reason, bool_injective, nth, after_label,
}
use gruezi.Base.{Option, ℕ, ◌≡◌, ◌≢◌, refl, sym, ap, none, some, List, [], ◌∷◌, ◌++◌}
use gruezi.Text.{Text, codes}
use gruezi.Text.Decimal.{display_injective}
use gruezi.Ha.Status.{HaStatus}
use gruezi.Api.{StatusResponse}
use gruezi.Cli.Status.{or_unknown, ha_lines, lines_of, snapshot_lines}

-- Two status that agree in all that is printed. A missing peer prints as one named `unknown`.
pub record Agree (a b : HaStatus) : Type 0 where
  pub node_id : a.node_id ≡ b.node_id
  pub group_id : a.group_id ≡ b.group_id
  pub state : a.state ≡ b.state
  pub bind : a.bind ≡ b.bind
  pub peer : a.peer ≡ b.peer
  pub priority : a.priority ≡ b.priority
  pub advert_interval_ms : a.advert_interval_ms ≡ b.advert_interval_ms
  pub dead_timeout_ms : a.dead_timeout_ms ≡ b.dead_timeout_ms
  pub hold_down_ms : a.hold_down_ms ≡ b.hold_down_ms
  pub peer_alive : a.peer_alive ≡ b.peer_alive
  pub last_peer_seen_ms_ago : a.last_peer_seen_ms_ago ≡ b.last_peer_seen_ms_ago
  pub peer_node_id : or_unknown a.peer_node_id ≡ or_unknown b.peer_node_id
  pub peer_state : a.peer_state ≡ b.peer_state
  pub sequence : a.sequence ≡ b.sequence
  pub packets_sent : a.packets_sent ≡ b.packets_sent
  pub packets_received : a.packets_received ≡ b.packets_received
  pub invalid_packets : a.invalid_packets ≡ b.invalid_packets
  pub auth_failures : a.auth_failures ≡ b.auth_failures
  pub duplicate_node_id_packets : a.duplicate_node_id_packets ≡ b.duplicate_node_id_packets
  pub decision_reason : a.decision_reason ≡ b.decision_reason
  pub last_transition_reason : a.last_transition_reason ≡ b.last_transition_reason
  pub last_transition_ms_ago : a.last_transition_ms_ago ≡ b.last_transition_ms_ago

module _ (a b : HaStatus) (e : ha_lines a ≡ ha_lines b) where
  line :
      (k : ℕ) (label x y : Text)
      → nth k (ha_lines a) ≡ label ++ x
      → nth k (ha_lines b) ≡ label ++ y
      → x ≡ y
  line k label x y p q = after_label k label x y (ha_lines a) (ha_lines b) e p q

  ha_lines-Agree : Agree a b
  unfolding ha_lines nth
  ha_lines-Agree = record {
    node_id = line 0 (codes "  Node ID: ") _ _ refl refl;
    group_id = line 1 (codes "  Group ID: ") _ _ refl refl;
    state = state_injective _ _ (line 2 (codes "  HA State: ") _ _ refl refl);
    bind = line 3 (codes "  Bind: ") _ _ refl refl;
    peer = line 4 (codes "  Peer: ") _ _ refl refl;
    priority = display_injective _ _ (line 5 (codes "  Priority: ") _ _ refl refl);
    advert_interval_ms = millis_injective _ _ (line 6 (codes "  Advert Interval: ") _ _ refl refl);
    dead_timeout_ms = millis_injective _ _ (line 7 (codes "  Dead Timeout: ") _ _ refl refl);
    hold_down_ms = millis_injective _ _ (line 8 (codes "  Hold Down: ") _ _ refl refl);
    peer_alive = bool_injective _ _ (line 9 (codes "  Peer Alive: ") _ _ refl refl);
    last_peer_seen_ms_ago =
        optional_millis _ _ (line 10 (codes "  Last Peer Seen: ") _ _ refl refl);
    peer_node_id = line 11 (codes "  Peer Node ID: ") _ _ refl refl;
    peer_state = optional_state _ _ (line 12 (codes "  Peer State: ") _ _ refl refl);
    sequence = display_injective _ _ (line 13 (codes "  Sequence: ") _ _ refl refl);
    packets_sent = display_injective _ _ (line 14 (codes "  Packets Sent: ") _ _ refl refl);
    packets_received = display_injective _ _ (line 15 (codes "  Packets Received: ") _ _ refl refl);
    invalid_packets = display_injective _ _ (line 16 (codes "  Invalid Packets: ") _ _ refl refl);
    auth_failures = display_injective _ _ (line 17 (codes "  Auth Failures: ") _ _ refl refl);
    duplicate_node_id_packets =
        display_injective _ _ (line 18 (codes "  Duplicate Node ID Packets: ") _ _ refl refl);
    decision_reason = as_str_injective _ _ (line 19 (codes "  Decision Reason: ") _ _ refl refl);
    last_transition_reason =
        optional_reason _ _ (line 20 (codes "  Last Transition Reason: ") _ _ refl refl);
    last_transition_ms_ago =
        optional_millis _ _ (line 21 (codes "  Last Transition: ") _ _ refl refl);
  }

without_two : List Text → List Text
without_two [] = []
without_two (l ∷ []) = []
without_two (l ∷ m ∷ ls) = ls

-- Both without HA, or both with HA and in agreement.
abbrev pub AgreeHa : Option HaStatus → Option HaStatus → Type 0
AgreeHa none none = Unit {0}
AgreeHa none (some b) = ⊥
AgreeHa (some a) none = ⊥
AgreeHa (some a) (some b) = Agree a b

no_lines : (a : HaStatus) → ha_lines a ≢ []
unfolding ha_lines
no_lines a e = cc

lines_of-AgreeHa : (x y : Option HaStatus) → lines_of x ≡ lines_of y → AgreeHa x y
unfolding lines_of
lines_of-AgreeHa none none e = tt
lines_of-AgreeHa none (some b) e = no_lines b (sym e)
lines_of-AgreeHa (some a) none e = no_lines a e
lines_of-AgreeHa (some a) (some b) e = ha_lines-Agree a b e

-- Two status responses that print the same lines have the same mode and, where they have an HA
-- status, agree in each of its fields, but that a peer without a node id prints like one with
-- the id `unknown`.
pub snapshot_lines-AgreeHa :
    (a b : StatusResponse)
    → snapshot_lines a ≡ snapshot_lines b
    → (a.mode ≡ b.mode) × AgreeHa a.ha_status b.ha_status
unfolding snapshot_lines nth without_two
snapshot_lines-AgreeHa a b e = (
  after_label 1 (codes "  Mode: ") a.mode b.mode (snapshot_lines a) (snapshot_lines b) e refl refl,
  lines_of-AgreeHa a.ha_status b.ha_status (ap without_two e),
)
