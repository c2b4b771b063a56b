-- ===== src/Ha/Decision.antt =====
-- The HA state machine of src/gruezi/ha.rs: which state a node should be in, and why.
pub mod Rank
pub mod Election
pub mod Failover
use Prim.Native.Nat.{compare, Ordering}
use gruezi.Base.{ℕ, ◌≡◌, Bool, true, false, ◌&&◌, ◌||◌, Option, none, some, ltb, leb, if◌then◌else◌}
use gruezi.Text.{Text, text_cmp}
use gruezi.Ha.Receive.{PeerObservation}
use gruezi.Ha.Runtime.{HaRuntimeConfig, follower_deadline}
use gruezi.Ha.State.{
  HaState, init, standby, active, state_eq, HaDecisionReason, startup_hold,
  startup_deadline_expired, already_active, peer_timeout, local_higher_priority,
  local_node_id_tiebreak, peer_higher_priority, peer_node_id_tiebreak, peer_active_no_preempt,
  peer_became_active_conflict, preempt_higher_priority, preempt_node_id_tiebreak,
}

pub record HaDecision : Type 0 where
  pub state : HaState
  pub reason : HaDecisionReason

abbrev pub decide : HaState → HaDecisionReason → HaDecision
decide s r = record { state = s; reason = r }

-- `rank_order`
unfoldable pub rank_order : ℕ → Text → ℕ → Text → Ordering
rank_order local_priority local_node_id peer_priority peer_node_id =
    elim (compare local_priority peer_priority) [
      | Ordering.eq ↦ text_cmp local_node_id peer_node_id
      | Ordering.lt ↦ Ordering.lt
      | Ordering.gt ↦ Ordering.gt
    ]

abbrev is_greater : Ordering → Bool
is_greater Ordering.gt = true
is_greater Ordering.lt = false
is_greater Ordering.eq = false

-- `outranks`
unfoldable pub outranks : ℕ → Text → ℕ → Text → Bool
unfolding rank_order
outranks local_priority local_node_id peer_priority peer_node_id =
    is_greater (rank_order local_priority local_node_id peer_priority peer_node_id)

-- `local_win_reason`
local_win_reason : ℕ → ℕ → HaDecisionReason → HaDecisionReason → HaDecisionReason
local_win_reason local_priority peer_priority higher tiebreak =
    if ltb peer_priority local_priority then higher else tiebreak

-- `peer_win_reason`
peer_win_reason : ℕ → ℕ → HaDecisionReason → HaDecisionReason → HaDecisionReason
peer_win_reason local_priority peer_priority higher tiebreak =
    if ltb local_priority peer_priority then higher else tiebreak

-- Does the node outrank the peer that it saw?
abbrev pub local_wins : HaRuntimeConfig → PeerObservation → Bool
local_wins r peer = outranks r.priority r.node_id peer.priority peer.node_id

-- `follower_deadline(peer.observed_at) > now`
abbrev pub is_live : HaRuntimeConfig → ℕ → PeerObservation → Bool
is_live r now peer = ltb now (follower_deadline r peer.observed_at)

-- `peer_observation.filter(..)`
abbrev pub live_peer : HaRuntimeConfig → ℕ → Option PeerObservation → Option PeerObservation
live_peer r now none = none
live_peer r now (some peer) = if is_live r now peer then some peer else none

-- `has_live_active_peer`
unfoldable pub has_live_active_peer : HaRuntimeConfig → Option PeerObservation → ℕ → Bool
has_live_active_peer r none now = false
has_live_active_peer r (some peer) now = is_live r now peer && state_eq peer.state active

-- `desired_state_without_live_peer`
unfoldable pub desired_state_without_live_peer :
    HaState → Option PeerObservation → ℕ → ℕ → HaDecision
desired_state_without_live_peer current (some peer) startup_deadline now =
    decide active peer_timeout
desired_state_without_live_peer current none startup_deadline now =
    if state_eq current active
    then decide active already_active
    else if leb startup_deadline now
    then decide active startup_deadline_expired
    else decide standby startup_hold

-- `desired_state_with_active_peer`
unfoldable pub desired_state_with_active_peer :
    HaRuntimeConfig → PeerObservation → Bool → HaDecision
unfolding local_win_reason peer_win_reason
desired_state_with_active_peer r peer active_peer_conflict =
    if local_wins r peer && (peer.became_active || active_peer_conflict)
    then decide standby peer_became_active_conflict
    else if r.preempt && local_wins r peer
    then decide active
        (local_win_reason r.priority peer.priority preempt_higher_priority preempt_node_id_tiebreak)
    else if r.preempt
    then decide standby
        (peer_win_reason r.priority peer.priority peer_higher_priority peer_node_id_tiebreak)
    else decide standby peer_active_no_preempt

-- The arm for a live peer that is not active.
unfoldable pub desired_state_with_passive_peer :
    HaRuntimeConfig → HaState → PeerObservation → HaDecision
unfolding local_win_reason peer_win_reason
desired_state_with_passive_peer r current peer =
    if state_eq current active
    then decide active already_active
    else if local_wins r peer
    then decide active
        (local_win_reason r.priority peer.priority local_higher_priority local_node_id_tiebreak)
    else decide standby
        (peer_win_reason r.priority peer.priority peer_higher_priority peer_node_id_tiebreak)

-- The match on the state of a live peer.
unfoldable pub desired_state_with_live_peer :
    HaRuntimeConfig → HaState → PeerObservation → Bool → HaDecision
unfolding desired_state_with_active_peer desired_state_with_passive_peer
desired_state_with_live_peer r current peer active_peer_conflict = elim peer.state [
  | active ↦ desired_state_with_active_peer r peer active_peer_conflict
  | init ↦ desired_state_with_passive_peer r current peer
  | standby ↦ desired_state_with_passive_peer r current peer
]

-- `desired_state`
unfoldable pub desired_state :
    HaRuntimeConfig → HaState → Option PeerObservation → ℕ → ℕ → Bool → HaDecision
unfolding desired_state_without_live_peer desired_state_with_live_peer
desired_state r current seen startup_at now active_peer_conflict = elim (live_peer r now seen) [
  | none ↦ desired_state_without_live_peer current seen (follower_deadline r startup_at) now
  | some peer ↦ desired_state_with_live_peer r current peer active_peer_conflict
]
