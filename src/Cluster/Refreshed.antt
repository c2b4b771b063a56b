-- ===== src/Cluster/Refreshed.antt =====
-- The state to which a refresh of src/gruezi/ha.rs leads, beside a live peer and at the startup.
use gruezi.Base.{ℕ, ◌<◌, ◌≡◌, ◌≢◌, ◌⊎◌, ◌∙◌, Bool, true, false, none, some, arith}
use gruezi.Ha.Decision.{desired_state, desired_state_without_live_peer, local_wins}
use gruezi.Ha.Loop.{refresh_local_state, decision_of}
use gruezi.Ha.Loop.Transitions.{decided-state}
use gruezi.Ha.Receive.{PeerObservation}
use gruezi.Ha.Runtime.{HaRuntimeConfig, follower_deadline}
use gruezi.Ha.State.{HaState, standby, active}
use gruezi.Ha.Status.{HaLoopState}

-- A node that does not outrank its live peer follows it, unless it is active and the peer is not.
follower-standby :
    (r : HaRuntimeConfig) (current : HaState) (o : PeerObservation) (startup_at now : ℕ)
    (conflict : Bool)
    → local_wins r o ≡ false
    → now < follower_deadline r o.observed_at
    → (current ≢ active) ⊎ (o.state ≡ active)
    → (desired_state r current (some o) startup_at now conflict).state ≡ standby
unfolding desired_state
follower-standby r current o startup_at now conflict loses live yields = ground arith

hold-standby :
    (r : HaRuntimeConfig) (current : HaState) (startup_at now : ℕ) (conflict : Bool)
    → current ≢ active
    → now < follower_deadline r startup_at
    → (desired_state r current none startup_at now conflict).state ≡ standby
unfolding desired_state desired_state_without_live_peer
hold-standby r current startup_at now conflict rests early = ground arith

leader-active :
    (r : HaRuntimeConfig) (current : HaState) (o : PeerObservation) (startup_at now : ℕ)
    (conflict : Bool)
    → local_wins r o ≡ true
    → now < follower_deadline r o.observed_at
    → o.state ≢ active
    → (desired_state r current (some o) startup_at now conflict).state ≡ active
unfolding desired_state
leader-active r current o startup_at now conflict wins live passive = ground arith

module _ (r : HaRuntimeConfig) (has_tx : Bool) where
  -- The state to which a refresh leads.
  abbrev pub refreshed : HaLoopState → ℕ → HaState
  refreshed s t = (refresh_local_state r has_tx s t).0.state

  refreshed-decided : (s : HaLoopState) (t : ℕ) → refreshed s t ≡ (decision_of r s t).state
  unfolding refresh_local_state
  refreshed-decided s t = decided-state r s (decision_of r s t) t

  pub refreshed-standby :
      (s : HaLoopState) (t : ℕ) (o : PeerObservation)
      → s.peer_observation ≡ some o
      → local_wins r o ≡ false
      → t < follower_deadline r o.observed_at
      → (s.state ≢ active) ⊎ (o.state ≡ active)
      → refreshed s t ≡ standby
  refreshed-standby s t o seen loses live yields =
      refreshed-decided s t
      ∙ (unfold decision_of in
          rw seen
            (follower-standby r s.state o s.startup_at t s.active_peer_conflict loses live yields))

  -- A node that waits for a peer at the startup is in standby.
  pub refreshed-hold :
      (s : HaLoopState) (t : ℕ)
      → s.peer_observation ≡ none
      → s.state ≢ active
      → t < follower_deadline r s.startup_at
      → refreshed s t ≡ standby
  refreshed-hold s t unseen rests early =
      refreshed-decided s t
      ∙ (unfold decision_of in
          rw unseen (hold-standby r s.state s.startup_at t s.active_peer_conflict rests early))

  pub refreshed-active :
      (s : HaLoopState) (t : ℕ) (o : PeerObservation)
      → s.peer_observation ≡ some o
      → local_wins r o ≡ true
      → t < follower_deadline r o.observed_at
      → o.state ≢ active
      → refreshed s t ≡ active
  refreshed-active s t o seen wins live passive =
      refreshed-decided s t
      ∙ (unfold decision_of in
          rw seen
            (leader-active r s.state o s.startup_at t s.active_peer_conflict wins live passive))
