-- ===== src/Ha/Loop/Rests.antt =====
-- What the handlers of src/gruezi/ha.rs do to an active node whose peer is not active.
use gruezi.Base.{
  ℕ, ◌≤◌, ◌<◌, ◌≡◌, ◌≢◌, refl, sym, ap, ◌∙◌, subst, Bool, true, Option, none, some, List, [], ◌++◌,
  Bool-cases, inl, inr, length, leb, take, arith, ◌⊎◌,
}
use gruezi.Base.Result.{Result, ok, err, result_cases}
use gruezi.Base.Word.{Bytes}
use gruezi.Net.{SocketAddr}
use gruezi.Ha.Decision.{desired_state}
use gruezi.Ha.Decision.Failover.{desired_state-active_iff}
use gruezi.Ha.Error.{Error}
use gruezi.Ha.Loop.{Effect, decision_of, trigger_state_hooks}
use gruezi.Ha.Loop.Actions.{actions, actions-++, actions-publish}
use gruezi.Ha.Loop.Handlers.{handle_receive_event, after_packet}
use gruezi.Ha.Loop.Keeps.{IsTransient, Keeps, receive-Keeps}
use gruezi.Ha.Loop.Run.{Event, shutdown, receive, timer}
use gruezi.Ha.Loop.Quiet.{Quiet, receive-Quiet}
use gruezi.Ha.Packet.{HaPacket}
use gruezi.Ha.Packet.Decode.{decode}
use gruezi.Ha.Receive.{PeerObservation, handle_incoming_packet, observe}
use gruezi.Ha.Receive.Accept.{handle_incoming_packet_iff}
use gruezi.Ha.Runtime.{HaRuntimeConfig, follower_deadline}
use gruezi.Ha.State.{HaState, HaDecisionReason, active}
use gruezi.Ha.Status.{HaLoopState}

-- The peer was not active when it was last seen.
abbrev pub IsPassive : Option PeerObservation → Type 0
IsPassive none = Unit {0}
IsPassive (some o) = o.state ≢ active

-- Nothing that speaks of another active node: the timer, a datagram that decodes to no packet of an
-- active node, or an I/O error that passes.
abbrev pub Calm : Event → Type 0
Calm (shutdown now) = ⊥
Calm (receive (ok (n, from)) buffer now cleanup_at) =
    (leb n (length buffer) ≡ true)
    × ((p : HaPacket) → decode (take n buffer) ≡ ok p → p.state ≢ active)
Calm (receive (err k) buffer now cleanup_at) = IsTransient (some k)
Calm (timer sent tokio_now now cleanup_at) = IsTransient sent

passive-active :
    (r : HaRuntimeConfig) (seen : Option PeerObservation) (startup_at now : ℕ) (conflict : Bool)
    → IsPassive seen
    → (desired_state r active seen startup_at now conflict).state ≡ active
passive-active r none startup_at now conflict p =
    (desired_state-active_iff r active none startup_at now conflict).1 (inl refl)
passive-active r (some o) startup_at now conflict p =
    (desired_state-active_iff r active (some o) startup_at now conflict).1
      (by_deadline (follower_deadline r o.observed_at) now (inl (p, inl refl)))
  where
    by_deadline : {A : Type 0} → (deadline now : ℕ) → A → (deadline ≤ now) ⊎ ((now < deadline) × A)
    by_deadline deadline now a = elim (Bool-cases (leb deadline now)) [
      | inl e ↦ inl (ground arith)
      | inr e ↦ inr (ground arith, a)
    ]

-- The handler succeeds, the state stays, the peer was not active when it was last seen, and there
-- is no address action.
unfoldable pub Rests : HaLoopState → Result Error (HaLoopState × List Effect) → Type 0
Rests s res =
    (s' : HaLoopState) × (es : List Effect) × (res ≡ ok (s', es))
    × (s'.state ≡ s.state)
    × IsPassive s'.peer_observation
    × (actions es ≡ [])

pair_eq :
    (a b : HaLoopState) (es fs : List Effect)
    → ◌≡◌ {A = Result Error (HaLoopState × List Effect)} (ok (a, es)) (ok (b, fs))
    → a ≡ b
pair_eq a b es fs e = cc

pub Keeps-Rests :
    (s : HaLoopState) (res : Result Error (HaLoopState × List Effect))
    → IsPassive s.peer_observation
    → Keeps s res
    → Quiet s res
    → Rests s res
unfolding Keeps Quiet Rests
Keeps-Rests s (ok (s', es)) passive (_, _, e, _, seen, _) quiet =
    let same = pair_eq s' _ es _ e in
    (
      s',
      es,
      refl,
      quiet.1,
      subst IsPassive (ap (λ x. x.peer_observation) (sym same))
          (subst IsPassive (sym seen) passive),
      quiet.0,
    )
Keeps-Rests s (err x) passive (_, _, e, _, _, _) quiet = absurd (cc)

pub quiet_after :
    (es fs : List Effect) → actions es ≡ [] → actions fs ≡ [] → actions (es ++ fs) ≡ []
quiet_after es fs a b = actions-++ es fs ∙ ap (λ l. l ++ actions fs) a ∙ b

-- A node that stays active asks for nothing.
pub trigger_none :
    (r : HaRuntimeConfig) (previous current : HaState) (reason : HaDecisionReason)
    (seen : Option PeerObservation) (now : ℕ)
    → previous ≡ active
    → current ≡ active
    → actions (trigger_state_hooks r previous current reason seen now) ≡ []
unfolding trigger_state_hooks
trigger_none r previous current reason seen now p c = rw (p, c) refl

observe-state :
    (seen : Option PeerObservation) (p : HaPacket) (t : ℕ) → (observe seen p t).state ≡ p.state
unfolding observe
observe-state seen p t = refl

pub decided-active :
    (r : HaRuntimeConfig) (s : HaLoopState) (now : ℕ)
    → s.state ≡ active
    → IsPassive s.peer_observation
    → (decision_of r s now).state ≡ active
unfolding decision_of
decided-active r s now a p =
    ap (λ x. (desired_state r x s.peer_observation s.startup_at now s.active_peer_conflict).state) a
    ∙ passive-active r s.peer_observation s.startup_at now s.active_peer_conflict p

module _ (hash : Bytes → ℕ) (r : HaRuntimeConfig) (has_tx : Bool) where
  received-passive :
      (payload : Bytes) (from : SocketAddr) (now : ℕ) (seen : Option PeerObservation)
      (o : PeerObservation)
      → ((p : HaPacket) → decode payload ≡ ok p → p.state ≢ active)
      → handle_incoming_packet hash r payload from now seen ≡ ok o
      → o.state ≢ active
  received-passive payload from now seen o calm h e =
      let (p, decoded, accepts, same) =
        (handle_incoming_packet_iff hash r payload from now seen o).0 h in
      calm p decoded (sym (observe-state seen p now) ∙ ap (λ x. x.state) (sym same) ∙ e)

  accepted-Rests :
      (s : HaLoopState) (n : ℕ) (from : SocketAddr) (buffer : Bytes) (now : ℕ) (o : PeerObservation)
      → leb n (length buffer) ≡ true
      → o.state ≢ active
      → handle_incoming_packet hash r (take n buffer) from now s.peer_observation ≡ ok o
      → Rests s (handle_receive_event hash r has_tx s (ok (n, from)) buffer now)
  unfolding Rests handle_receive_event after_packet
  accepted-Rests s n from buffer now o le passive h =
      rw (le, h) (_, _, refl, refl, passive, actions-publish r has_tx _ now)

  pub receive-Rests :
      (s : HaLoopState) (n : ℕ) (from : SocketAddr) (buffer : Bytes) (now : ℕ)
      → leb n (length buffer) ≡ true
      → ((p : HaPacket) → decode (take n buffer) ≡ ok p → p.state ≢ active)
      → IsPassive s.peer_observation
      → Rests s (handle_receive_event hash r has_tx s (ok (n, from)) buffer now)
  receive-Rests s n from buffer now le calm passive =
      elim (result_cases
        (handle_incoming_packet hash r (take n buffer) from now s.peer_observation)) [
          | inl (o, h) ↦
              accepted-Rests s n from buffer now o le
                (received-passive (take n buffer) from now s.peer_observation o calm h) h
          | inr (e, h) ↦
              Keeps-Rests s _ passive (receive-Keeps hash r has_tx s n from buffer now e le h)
                (receive-Quiet hash r has_tx s (ok (n, from)) buffer now)
        ]
