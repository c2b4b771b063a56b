-- ===== src/Ha/State.antt =====
-- `HaState` and `HaDecisionReason` of src/gruezi/ha.rs.
use gruezi.Base.{ℕ, zero, suc, Option, none, some, Bool, true, false}
use gruezi.Text.{Text, codes}

pub data HaState : Type 0 where
  init standby active : HaState

pub data HaDecisionReason : Type 0 where
  startup startup_hold startup_deadline_expired already_active peer_timeout : HaDecisionReason
  local_higher_priority local_node_id_tiebreak : HaDecisionReason
  peer_higher_priority peer_node_id_tiebreak : HaDecisionReason
  peer_active_no_preempt peer_became_active_conflict : HaDecisionReason
  preempt_higher_priority preempt_node_id_tiebreak : HaDecisionReason
  graceful_shutdown runtime_fault address_action_failed : HaDecisionReason

-- `HaDecisionReason::as_str`
unfoldable pub as_str : HaDecisionReason → Text
as_str startup = codes "startup"
as_str startup_hold = codes "startup_hold"
as_str startup_deadline_expired = codes "startup_deadline_expired"
as_str already_active = codes "already_active"
as_str peer_timeout = codes "peer_timeout"
as_str local_higher_priority = codes "local_higher_priority"
as_str local_node_id_tiebreak = codes "local_node_id_tiebreak"
as_str peer_higher_priority = codes "peer_higher_priority"
as_str peer_node_id_tiebreak = codes "peer_node_id_tiebreak"
as_str peer_active_no_preempt = codes "peer_active_no_preempt"
as_str peer_became_active_conflict = codes "peer_became_active_conflict"
as_str preempt_higher_priority = codes "preempt_higher_priority"
as_str preempt_node_id_tiebreak = codes "preempt_node_id_tiebreak"
as_str graceful_shutdown = codes "graceful_shutdown"
as_str runtime_fault = codes "runtime_fault"
as_str address_action_failed = codes "address_action_failed"

-- `HaState::as_u8`
unfoldable pub as_u8 : HaState → ℕ
as_u8 init = 0
as_u8 standby = 1
as_u8 active = 2

-- `impl TryFrom<u8> for HaState`; `none` is the error.
unfoldable pub try_from_u8 : ℕ → Option HaState
try_from_u8 zero = some init
try_from_u8 (suc zero) = some standby
try_from_u8 (suc (suc zero)) = some active
try_from_u8 (suc (suc (suc n))) = none

-- The derived `Debug`.
unfoldable pub debug_state : HaState → Text
debug_state init = codes "Init"
debug_state standby = codes "Standby"
debug_state active = codes "Active"

-- The derived `==`.
abbrev pub state_eq : HaState → HaState → Bool
state_eq init init = true
state_eq standby standby = true
state_eq active active = true
state_eq init standby = false
state_eq init active = false
state_eq standby init = false
state_eq standby active = false
state_eq active init = false
state_eq active standby = false

abbrev pub is_conflict : HaDecisionReason → Bool
is_conflict peer_became_active_conflict = true
is_conflict _ = false
