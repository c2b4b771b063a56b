-- ===== src/Api/Shows.antt =====
-- What the status that the loop of src/gruezi/ha.rs publishes shows of its state.
use gruezi.Base.{ℕ, ◌≡◌, refl, sym, subst, true, List, [], ◌∷◌, ◌++◌}
use mathlib.Core.Option
use gruezi.Ha.Loop.{
  Effect, published, address_spawned, hook_spawned, datagram, address_applied, hook_run,
  refresh_local_state, publish_loop_status, decision_of, decided, trigger_state_hooks,
}
use gruezi.Ha.Runtime.{HaRuntimeConfig}
use gruezi.Ha.Status.{HaLoopState, HaStatus, status_snapshot}
use gruezi.Api.{borrow}

-- A status that shows the state, the last decision and the peer, and the counters but those of the
-- refused packets, which are published with the next refresh.
pub record Shows (s : HaLoopState) (status : HaStatus) : Type 0 where
  pub state : status.state ≡ s.state
  pub decision_reason : status.decision_reason ≡ s.decision_reason
  pub last_transition_reason : status.last_transition_reason ≡ s.last_transition_reason
  pub sequence : status.sequence ≡ s.sequence
  pub packets_sent : status.packets_sent ≡ s.counters.packets_sent
  pub packets_received : status.packets_received ≡ s.counters.packets_received
  pub peer_node_id : status.peer_node_id ≡ Option.map (λ o. o.node_id) s.peer_observation
  pub peer_state : status.peer_state ≡ Option.map (λ o. o.state) s.peer_observation

pub borrow-++ :
    (status : HaStatus) (es fs : List Effect)
    → borrow status (es ++ fs) ≡ borrow (borrow status es) fs
unfolding borrow
borrow-++ status [] fs = refl
borrow-++ status (published last ∷ es) fs = borrow-++ last es fs
borrow-++ status (address_spawned _ _ _ ∷ es) fs = borrow-++ status es fs
borrow-++ status (hook_spawned _ _ _ ∷ es) fs = borrow-++ status es fs
borrow-++ status (datagram _ _ ∷ es) fs = borrow-++ status es fs
borrow-++ status (address_applied _ _ ∷ es) fs = borrow-++ status es fs
borrow-++ status (hook_run _ _ _ ∷ es) fs = borrow-++ status es fs

module _ (r : HaRuntimeConfig) where
  pub publish-Shows :
      (s : HaLoopState) (status : HaStatus) (now : ℕ)
      → Shows s (borrow status (publish_loop_status r true s now))
  unfolding borrow status_snapshot
  publish-Shows s status now = record {
    state = refl;
    decision_reason = refl;
    last_transition_reason = refl;
    sequence = refl;
    packets_sent = refl;
    packets_received = refl;
    peer_node_id = refl;
    peer_state = refl;
  }

  -- The same after any other effects.
  then_publish-Shows :
      (s : HaLoopState) (status : HaStatus) (es : List Effect) (now : ℕ)
      → Shows s (borrow status (es ++ publish_loop_status r true s now))
  then_publish-Shows s status es now =
      subst (Shows s) (sym (borrow-++ status es (publish_loop_status r true s now)))
        (publish-Shows s (borrow status es) now)

  pub refresh-Shows :
      (s : HaLoopState) (status : HaStatus) (now : ℕ)
      → let (s', effects) = refresh_local_state r true s now in Shows s' (borrow status effects)
  unfolding refresh_local_state
  refresh-Shows s status now =
      then_publish-Shows (decided r s (decision_of r s now) now) status
        (trigger_state_hooks r s.state _ _ s.peer_observation now) now
