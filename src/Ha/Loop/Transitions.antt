-- ===== src/Ha/Loop/Transitions.antt =====
-- The address actions and the transitions of the loop of src/gruezi/ha.rs.
use gruezi.Base.{
  ℕ, ◌≡◌, ◌≢◌, ◌⊎◌, refl, sym, ap, ◌∙◌, Bool, true, false, Option, none, some, List, [], ◌∷◌, ◌++◌,
  arith, if◌then◌else◌, Bool-cases, inl, inr,
}
use gruezi.Addresses.{AddressAction, add, remove}
use gruezi.Hooks.{HookContext, HookEvent, promote, demote, backup}
use gruezi.Ha.Receive.{PeerObservation}
use gruezi.Ha.Decision.{HaDecision, desired_state, has_live_active_peer}
use gruezi.Ha.Decision.Failover.{desired_state-ne-init}
use gruezi.Ha.Loop.{
  Effect, published, address_spawned, hook_spawned, datagram, address_applied, hook_run,
  publish_loop_status, refresh_local_state, trigger_state_hooks, decided, address_manager,
  decision_of, next_conflict, hooks_for,
}
use gruezi.Ha.Runtime.{HaRuntimeConfig}
use gruezi.Ha.State.{HaState, init, standby, active, state_eq, HaDecisionReason}
use gruezi.Ha.Status.{HaLoopState}

-- Does the node hold the addresses, after one more effect?
abbrev pub holds : Bool → Effect → Bool
holds b (published _) = b
holds b (address_spawned _ add _) = true
holds b (address_spawned _ remove _) = false
holds b (hook_spawned _ _ _) = b
holds b (datagram _ _) = b
holds b (address_applied _ add) = true
holds b (address_applied _ remove) = false
holds b (hook_run _ _ _) = b

unfoldable pub replay : Bool → List Effect → Bool
replay b [] = b
replay b (e ∷ es) = replay (holds b e) es

pub replay-++ : (b : Bool) (es fs : List Effect) → replay b (es ++ fs) ≡ replay (replay b es) fs
unfolding replay
replay-++ b [] fs = refl
replay-++ b (e ∷ es) fs = replay-++ (holds b e) es fs

pub replay-publish :
    (b : Bool) (r : HaRuntimeConfig) (has_tx : Bool) (s : HaLoopState) (now : ℕ)
    → replay b (publish_loop_status r has_tx s now) ≡ b
unfolding replay
replay-publish b r true s now = refl
replay-publish b r false s now = refl

is_active : HaLoopState → Bool
is_active s = state_eq s.state active

trigger-replay :
    (r : HaRuntimeConfig) (previous current : HaState) (reason : HaDecisionReason)
    (seen : Option PeerObservation) (now : ℕ)
    → current ≢ init
    → replay (state_eq previous active) (trigger_state_hooks r previous current reason seen now)
      ≡ state_eq current active
unfolding replay trigger_state_hooks
trigger-replay r previous init reason seen now ne = absurd (ne refl)
trigger-replay r init standby reason seen now ne = refl
trigger-replay r standby standby reason seen now ne = refl
trigger-replay r active standby reason seen now ne = refl
trigger-replay r init active reason seen now ne = refl
trigger-replay r standby active reason seen now ne = refl
trigger-replay r active active reason seen now ne = refl

pub state_eq_sound : (a b : HaState) → state_eq a b ≡ true → a ≡ b
state_eq_sound a b e = ground arith

-- The state is the one decided.
pub decided-state :
    (r : HaRuntimeConfig) (s : HaLoopState) (d : HaDecision) (now : ℕ)
    → (decided r s d now).state ≡ d.state
unfolding decided
decided-state r s d now = elim (Bool-cases (state_eq s.state d.state)) [
  | inl e ↦ rw e (state_eq_sound s.state d.state e)
  | inr e ↦ rw e refl
]

pub refresh-replay :
    (r : HaRuntimeConfig) (has_tx : Bool) (s : HaLoopState) (now : ℕ)
    → replay (state_eq s.state active) (refresh_local_state r has_tx s now).1
      ≡ state_eq (refresh_local_state r has_tx s now).0.state active
unfolding refresh_local_state
refresh-replay r has_tx s now =
    let d = decision_of r s now in
    let s' = decided r s d now in
    replay-++ (state_eq s.state active)
      (trigger_state_hooks r s.state d.state d.reason s.peer_observation now)
      (publish_loop_status r has_tx s' now)
    ∙ replay-publish _ r has_tx s' now
    ∙ trigger-replay r s.state d.state d.reason s.peer_observation now (
        unfold decision_of in
        desired_state-ne-init r s.state s.peer_observation s.startup_at now s.active_peer_conflict)
    ∙ ap (λ x. state_eq x active) (sym (decided-state r s d now))

desired-conflict :
    (r : HaRuntimeConfig) (current : HaState) (seen : Option PeerObservation) (startup_at now : ℕ)
    → has_live_active_peer r seen now ≡ true
    → (desired_state r current seen startup_at now true).state ≡ standby
unfolding desired_state has_live_active_peer
desired-conflict r current none startup_at now l = absurd (cc l)
desired-conflict r current (some o) startup_at now l = ground arith

desired-no_preempt :
    (r : HaRuntimeConfig) (current : HaState) (seen : Option PeerObservation) (startup_at now : ℕ)
    (conflict : Bool)
    → r.preempt ≡ false
    → has_live_active_peer r seen now ≡ true
    → (desired_state r current seen startup_at now conflict).state ≡ standby
unfolding desired_state has_live_active_peer
desired-no_preempt r current none startup_at now conflict p l = absurd (cc l)
desired-no_preempt r current (some o) startup_at now conflict p l = ground arith

next_conflict-kept :
    (r : HaRuntimeConfig) (s : HaLoopState) (d : HaDecision) (now : ℕ)
    → s.active_peer_conflict ≡ true
    → has_live_active_peer r s.peer_observation now ≡ true
    → next_conflict r s d now ≡ true
unfolding next_conflict
next_conflict-kept r s d now c l = ground arith

decided-conflict :
    (r : HaRuntimeConfig) (s : HaLoopState) (d : HaDecision) (now : ℕ)
    → (decided r s d now).active_peer_conflict ≡ next_conflict r s d now
unfolding decided
decided-conflict r s d now = elim (Bool-cases (state_eq s.state d.state)) [
  | inl e ↦ rw e refl
  | inr e ↦ rw e refl
]

abbrev action_for : HaState → AddressAction
action_for active = add
action_for standby = remove
action_for init = remove

-- One address action that fits the state, then one hook.
abbrev pub Asks : HaRuntimeConfig → HaState → List Effect → Type 0
Asks r state effects =
    (event : HookEvent) × (context : HookContext) × (effects
      ≡ address_spawned (address_manager r) (action_for state) (r.hooks, context)
        ∷ hook_spawned r.hooks event context
        ∷ [])

hooks_for-Asks :
    (r : HaRuntimeConfig) (previous current : HaState) (context : HookContext)
    → current ≢ init
    → Asks r current (hooks_for r previous current context ++ [])
unfolding hooks_for
hooks_for-Asks r previous init context ne = absurd (ne refl)
hooks_for-Asks r previous standby context ne =
    (if state_eq previous active then demote else backup, context, refl)
hooks_for-Asks r previous active context ne = (promote, context, refl)

state_eq-ne : (a b : HaState) → state_eq a b ≡ false → b ≢ a
state_eq-ne a b h e = ground arith

decided-seen :
    (r : HaRuntimeConfig) (s : HaLoopState) (d : HaDecision) (now : ℕ)
    → (decided r s d now).peer_observation ≡ s.peer_observation
unfolding decided
decided-seen r s d now = elim (Bool-cases (state_eq s.state d.state)) [
  | inl e ↦ rw e refl
  | inr e ↦ rw e refl
]

pub refresh-seen :
    (r : HaRuntimeConfig) (has_tx : Bool) (s : HaLoopState) (now : ℕ)
    → (refresh_local_state r has_tx s now).0.peer_observation ≡ s.peer_observation
unfolding refresh_local_state
refresh-seen r has_tx s now = decided-seen r s (decision_of r s now) now

-- If a node remembers a conflict of two active nodes, and its peer is alive and active, then a
-- refresh makes it standby and it goes on remembering the conflict.
pub refresh-conflict :
    (r : HaRuntimeConfig) (has_tx : Bool) (s : HaLoopState) (now : ℕ)
    → s.active_peer_conflict ≡ true
    → has_live_active_peer r s.peer_observation now ≡ true
    → let s' = (refresh_local_state r has_tx s now).0 in
      (s'.state ≡ standby) × (s'.active_peer_conflict ≡ true)
unfolding refresh_local_state decision_of
refresh-conflict r has_tx s now c l = (
  decided-state r s (decision_of r s now) now
      ∙ ap (λ b. (desired_state r s.state s.peer_observation s.startup_at now b).state) c
      ∙ desired-conflict r s.state s.peer_observation s.startup_at now l,
  decided-conflict r s (decision_of r s now) now
      ∙ next_conflict-kept r s (decision_of r s now) now c l,
)

-- If a node may not preempt, and its peer is alive and active, then a refresh makes it standby,
-- whatever its rank and state are.
pub refresh-no_preempt :
    (r : HaRuntimeConfig) (has_tx : Bool) (s : HaLoopState) (now : ℕ)
    → r.preempt ≡ false
    → has_live_active_peer r s.peer_observation now ≡ true
    → (refresh_local_state r has_tx s now).0.state ≡ standby
unfolding refresh_local_state decision_of
refresh-no_preempt r has_tx s now p l =
    decided-state r s (decision_of r s now) now
    ∙ desired-no_preempt r s.state s.peer_observation s.startup_at now s.active_peer_conflict p l

-- A refresh without a status channel does one of two things. Either the state stays, the last
-- transition stays, and there is no effect; or the state changes, not to `init`, the last
-- transition is at this time and for the reason decided, and the effects are one address action
-- for the new state, to add if active and else to remove, and one hook.
pub refresh-transition :
    (r : HaRuntimeConfig) (s : HaLoopState) (now : ℕ)
    → let (s', effects) = refresh_local_state r false s now in
      ((s'.state ≡ s.state)
        × (s'.last_transition_at ≡ s.last_transition_at)
        × (s'.last_transition_reason ≡ s.last_transition_reason)
        × (effects ≡ []))
      ⊎ ((s'.state ≢ s.state)
          × (s'.state ≢ init)
          × (s'.last_transition_at ≡ some now)
          × (s'.last_transition_reason ≡ some s'.decision_reason)
          × Asks r s'.state effects)
unfolding refresh_local_state decision_of decided
refresh-transition r s now =
    let d = decision_of r s now in
    let ne =
      desired_state-ne-init r s.state s.peer_observation s.startup_at now s.active_peer_conflict in
    elim (Bool-cases (state_eq s.state d.state)) [
      | inl e ↦ rw e (inl (refl, refl, refl, refl))
      | inr e ↦ rw e (
          inr
            (state_eq-ne s.state d.state e, ne, refl, refl, hooks_for-Asks r s.state d.state _ ne))
    ]
