-- ===== src/Cluster/Emits.antt =====
-- The datagrams among the effects of src/gruezi/ha.rs, and those of a refresh of the state.
use gruezi.Base.{
  ℕ, ◌≡◌, inl, inr, Bool, true, false, Bool-cases, Option, List, [], ◌∷◌, All, All-append,
}
use gruezi.Base.Result.{ok}
use gruezi.Base.Word.{Bytes}
use gruezi.Cluster.{sent}
use gruezi.Ha.Auth.Coverage.{tagged}
use gruezi.Ha.Loop.{
  Effect, published, address_spawned, hook_spawned, datagram, address_applied, hook_run,
  publish_loop_status, refresh_local_state, decision_of, trigger_state_hooks,
}
use gruezi.Ha.Packet.{encode}
use gruezi.Ha.Receive.{PeerObservation}
use gruezi.Ha.Runtime.{HaRuntimeConfig}
use gruezi.Ha.State.{HaState, init, standby, active, state_eq, HaDecisionReason}
use gruezi.Ha.Status.{HaLoopState}

-- An advertisement that the node encodes in a state.
abbrev pub AdvertIn : (Bytes → ℕ) → HaRuntimeConfig → HaState → Bytes → Type 0
AdvertIn hash r state bs = (sequence : ℕ) × (encode (tagged hash r state sequence) ≡ ok bs)

module _ (P : Bytes → Type 0) where
  abbrev pub Emits : Effect → Type 0
  Emits (published _) = Unit {0}
  Emits (address_spawned _ _ _) = Unit {0}
  Emits (hook_spawned _ _ _) = Unit {0}
  Emits (datagram bs _) = P bs
  Emits (address_applied _ _) = Unit {0}
  Emits (hook_run _ _ _) = Unit {0}

  pub Emits-sent : (es : List Effect) → All Emits es → All P (sent es)
  Emits-sent [] h = tt
  Emits-sent (published _ ∷ es) h = Emits-sent es h.1
  Emits-sent (address_spawned _ _ _ ∷ es) h = Emits-sent es h.1
  Emits-sent (hook_spawned _ _ _ ∷ es) h = Emits-sent es h.1
  Emits-sent (datagram bs _ ∷ es) h = (h.0, Emits-sent es h.1)
  Emits-sent (address_applied _ _ ∷ es) h = Emits-sent es h.1
  Emits-sent (hook_run _ _ _ ∷ es) h = Emits-sent es h.1

  pub publish-Emits :
      (r : HaRuntimeConfig) (has_tx : Bool) (s : HaLoopState) (now : ℕ)
      → All Emits (publish_loop_status r has_tx s now)
  publish-Emits r true s now = (tt, tt)
  publish-Emits r false s now = tt

  trigger-Emits :
      (r : HaRuntimeConfig) (previous current : HaState) (reason : HaDecisionReason)
      (seen : Option PeerObservation) (now : ℕ)
      → All Emits (trigger_state_hooks r previous current reason seen now)
  unfolding trigger_state_hooks
  trigger-Emits r previous init reason seen now = elim (Bool-cases (state_eq previous init)) [
    | inl e ↦ rw e tt
    | inr e ↦ rw e tt
  ]
  trigger-Emits r previous standby reason seen now = elim (Bool-cases (state_eq previous standby)) [
    | inl e ↦ rw e tt
    | inr e ↦ rw e (tt, (tt, tt))
  ]
  trigger-Emits r previous active reason seen now = elim (Bool-cases (state_eq previous active)) [
    | inl e ↦ rw e tt
    | inr e ↦ rw e (tt, (tt, tt))
  ]

  pub refresh-Emits :
      (r : HaRuntimeConfig) (has_tx : Bool) (s : HaLoopState) (now : ℕ)
      → All Emits (refresh_local_state r has_tx s now).1
  unfolding refresh_local_state
  refresh-Emits r has_tx s now =
      All-append Emits
        (trigger_state_hooks r s.state (decision_of r s now).state (decision_of r s now).reason
          s.peer_observation now)
        _ (trigger-Emits r s.state _ _ s.peer_observation now) (publish-Emits r has_tx _ now)
