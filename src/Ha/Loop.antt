-- ===== src/Ha/Loop.antt =====
-- The HA loop of src/gruezi/ha.rs. A handler takes the time that it reads and returns the new
-- state with its effects in order; logging has none. `has_tx` tells whether there is a channel
-- for the status, `status_tx`.
pub mod Handlers
pub mod Run
pub mod Log
pub mod Transitions
pub mod Actions
pub mod Quiet
pub mod Hooked
pub mod Vip
pub mod Refine
pub mod Keeps
pub mod Takeover
pub mod Prompt
pub mod Bound
pub mod Rests
pub mod Steady
pub mod Follower
pub mod Invariant
pub mod Published
pub mod Consistent
use mathlib.Core.Option
use gruezi.Base.{
  ℕ, ◌+◌, ◌%◌, ◌^◌, ◌≡◌, Bool, true, false, not, ◌&&◌, Option, none, some, List, [], ◌∷◌, ◌++◌, leb,
  if◌then◌else◌, length, take,
}
use gruezi.Base.Duration.{saturating_elapsed_ms}
use gruezi.Base.Result.{Result, ok, err, ◌>>=◌}
use gruezi.Base.Word.{Bytes, saturating_add}
use gruezi.Addresses.{AddressManager, AddressAction, add, remove}
use gruezi.Hooks.{HaHooks, HookContext, HookEvent, promote, demote, backup, fault}
use gruezi.Net.{SocketAddr}
use gruezi.Text.{Text}
use gruezi.Ha.Auth.{build_packet}
use gruezi.Ha.Decision.{HaDecision, desired_state, has_live_active_peer}
use gruezi.Ha.Error.{
  Error, ErrorKind, send_failed, receive_failed, invalid_length, is_auth_failure,
  is_duplicate_node_id_failure, is_transient_io_error, is_transient_send_failure,
}
use gruezi.Ha.Packet.{encode}
use gruezi.Ha.Receive.{PeerObservation, handle_incoming_packet}
use gruezi.Ha.Runtime.{HaRuntimeConfig, next_advert_delay}
use gruezi.Ha.State.{
  HaState, init, standby, active, state_eq, HaDecisionReason, startup, graceful_shutdown,
  runtime_fault, is_conflict,
}
use gruezi.Ha.Status.{HaCounters, default_counters, HaLoopState, HaStatus, status_snapshot}

pub data Effect : Type 0 where
  -- `send_replace` on the channel
  published : HaStatus → Effect
  -- `spawn_address_action`, with the hook for its failure
  address_spawned : AddressManager → AddressAction → HaHooks × HookContext → Effect
  -- `spawn_hook`
  hook_spawned : HaHooks → HookEvent → HookContext → Effect
  -- `send_to`
  datagram : Bytes → SocketAddr → Effect
  -- `apply(..).await` and `run(..).await` before the loop ends
  address_applied : AddressManager → AddressAction → Effect
  hook_run : HaHooks → HookEvent → HookContext → Effect

-- `address_manager`
abbrev pub address_manager : HaRuntimeConfig → AddressManager
address_manager r = record {
  ip_command = r.ip_command;
  arping_command = r.arping_command;
  ndsend_command = r.ndsend_command;
  interface = r.interface;
  addresses = r.addresses;
}

-- `hook_context`
abbrev pub hook_context :
    HaRuntimeConfig
    → HaState
    → HaState
    → Option HaDecisionReason
    → Option PeerObservation
    → ℕ
    → HookContext
hook_context r state previous_state reason seen now = record {
  node_id = r.node_id;
  group_id = r.group_id;
  interface = r.interface;
  state = state;
  previous_state = previous_state;
  reason = reason;
  priority = r.priority;
  peer_id = Option.map (λ o. o.node_id) seen;
  peer_state = Option.map (λ o. o.state) seen;
  peer_priority = Option.map (λ o. o.priority) seen;
  last_peer_seen_ms_ago = Option.map (λ o. saturating_elapsed_ms now o.observed_at) seen;
}

-- `publish_loop_status`, with `publish_status`
abbrev pub publish_loop_status : HaRuntimeConfig → Bool → HaLoopState → ℕ → List Effect
publish_loop_status r has_tx s now = if has_tx then published (status_snapshot r s now) ∷ [] else []

-- `initialize_loop_state`; `startup_at` and `tokio_now` are the two clocks that it reads.
unfoldable pub initial_state : HaRuntimeConfig → ℕ → ℕ → HaLoopState
initial_state r startup_at tokio_now = record {
  startup_at = startup_at;
  sequence = 0;
  state = init;
  active_peer_conflict = false;
  decision_reason = startup;
  last_transition_reason = none;
  last_transition_at = none;
  peer_observation = none;
  counters = default_counters;
  next_advert_at = tokio_now + next_advert_delay r 1;
}

unfoldable pub initialize_loop_state : HaRuntimeConfig → Bool → ℕ → ℕ → HaLoopState × List Effect
unfolding initial_state
initialize_loop_state r has_tx startup_at tokio_now =
    let s = initial_state r startup_at tokio_now in (s, publish_loop_status r has_tx s startup_at)

-- The match on the new state in `trigger_state_hooks`.
unfoldable pub hooks_for : HaRuntimeConfig → HaState → HaState → HookContext → List Effect
hooks_for r previous active context =
    address_spawned (address_manager r) add (r.hooks, context)
    ∷ hook_spawned r.hooks promote context
    ∷ []
hooks_for r previous standby context =
    address_spawned (address_manager r) remove (r.hooks, context)
    ∷ hook_spawned r.hooks (if state_eq previous active then demote else backup) context
    ∷ []
hooks_for r previous init context = []

-- `trigger_state_hooks`
unfoldable pub trigger_state_hooks :
    HaRuntimeConfig
    → HaState
    → HaState
    → HaDecisionReason
    → Option PeerObservation
    → ℕ
    → List Effect
unfolding hooks_for
trigger_state_hooks r previous current reason seen now =
    if state_eq previous current
    then []
    else hooks_for r previous current (hook_context r current previous (some reason) seen now)

-- The update of `active_peer_conflict` in `refresh_local_state`.
unfoldable pub next_conflict : HaRuntimeConfig → HaLoopState → HaDecision → ℕ → Bool
next_conflict r s d now =
    if is_conflict d.reason
    then true
    else if not (has_live_active_peer r s.peer_observation now)
    then false
    else s.active_peer_conflict

unfoldable pub decision_of : HaRuntimeConfig → HaLoopState → ℕ → HaDecision
decision_of r s now =
    desired_state r s.state s.peer_observation s.startup_at now s.active_peer_conflict

-- The state after a decision.
unfoldable pub decided : HaRuntimeConfig → HaLoopState → HaDecision → ℕ → HaLoopState
unfolding next_conflict
decided r s d now =
    let s' : HaLoopState = record s {
      active_peer_conflict = next_conflict r s d now;
      decision_reason = d.reason;
    } in
    if state_eq s.state d.state then s' else record s' {
      state = d.state;
      last_transition_reason = some d.reason;
      last_transition_at = some now;
    }

-- `refresh_local_state`
unfoldable pub refresh_local_state :
    HaRuntimeConfig → Bool → HaLoopState → ℕ → HaLoopState × List Effect
unfolding decision_of decided trigger_state_hooks
refresh_local_state r has_tx s now =
    let d = decision_of r s now in
    let s' = decided r s d now in
    (
      s',
      trigger_state_hooks r s.state d.state d.reason s.peer_observation now
          ++ publish_loop_status r has_tx s' now,
    )
