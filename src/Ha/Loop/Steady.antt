-- ===== src/Ha/Loop/Steady.antt =====
-- An active node stays active in the loop of src/gruezi/ha.rs, and leaves its addresses alone.
use gruezi.Base.{ℕ, ◌≡◌, refl, sym, ◌∙◌, subst, Bool, List, [], ◌∷◌, ◌++◌, All}
use gruezi.Base.Result.{Result, ok, err}
use gruezi.Base.Word.{Bytes}
use gruezi.Net.{SocketAddr}
use gruezi.Ha.Error.{Error}
use gruezi.Ha.Loop.{
  Effect, refresh_local_state, decision_of, decided, trigger_state_hooks, publish_loop_status,
}
use gruezi.Ha.Loop.Actions.{actions, actions-++, actions-publish}
use gruezi.Ha.Loop.Handlers.{handle_send_event}
use gruezi.Ha.Loop.Keeps.{IsSendable, receive_error-Keeps, send-Keeps}
use gruezi.Ha.Loop.Run.{
  Event, shutdown, receive, timer, Round, Outcome, running, or_cleanup, handle, round, rounds,
}
use gruezi.Ha.Loop.Transitions.{decided-state, refresh-seen}
use gruezi.Ha.Loop.Quiet.{receive-Quiet, send_event-Quiet}
use gruezi.Ha.Runtime.{HaRuntimeConfig}
use gruezi.Ha.State.{active}
use gruezi.Ha.Status.{HaLoopState}
use gruezi.Ha.Loop.Rests.{
  IsPassive, Calm, Rests, Keeps-Rests, receive-Rests, decided-active, quiet_after, trigger_none,
}

module _ (hash : Bytes → ℕ) (r : HaRuntimeConfig) (has_tx : Bool) where
  -- The loop goes on as it was, without an address action.
  RestsIn : HaLoopState → Outcome × List Effect → Type 0
  RestsIn s (o, es) =
      (s' : HaLoopState) × (o ≡ running s')
      × (s'.state ≡ s.state)
      × IsPassive s'.peer_observation
      × (actions es ≡ [])

  or_cleanup-RestsIn :
      (peer_addr : SocketAddr) (s : HaLoopState) (now : ℕ)
      (res : Result Error (HaLoopState × List Effect))
      → Rests s res
      → RestsIn s (or_cleanup hash r has_tx peer_addr s now res)
  unfolding Rests RestsIn or_cleanup
  or_cleanup-RestsIn peer_addr s now res (s', es, e, state, passive, none_asked) =
      rw e (s', refl, state, passive, none_asked)

  after_quiet :
      (s : HaLoopState) (before : List Effect) (x : Outcome × List Effect)
      → actions before ≡ []
      → RestsIn s x
      → RestsIn s (x.0, before ++ x.1)
  unfolding RestsIn
  after_quiet s before (o, es) quiet (s', e, state, passive, none_asked) =
      (s', e, state, passive, actions-++ before es ∙ rw (quiet, none_asked) refl)

  handle-RestsIn :
      (peer_addr : SocketAddr) (s : HaLoopState) (e : Event)
      → IsSendable r
      → IsPassive s.peer_observation
      → Calm e
      → RestsIn s (handle hash r has_tx peer_addr s e)
  unfolding handle
  handle-RestsIn peer_addr s (shutdown now) sendable passive calm = absurd calm
  handle-RestsIn peer_addr s (receive (ok (n, from)) buffer now cleanup_at) sendable passive
        (le, calm) =
      or_cleanup-RestsIn peer_addr s cleanup_at _
        (receive-Rests hash r has_tx s n from buffer now le calm passive)
  handle-RestsIn peer_addr s (receive (err k) buffer now cleanup_at) sendable passive calm =
      or_cleanup-RestsIn peer_addr s cleanup_at _ (
        Keeps-Rests s _ passive (receive_error-Keeps hash r has_tx s k buffer now calm)
          (receive-Quiet hash r has_tx s (err k) buffer now))
  handle-RestsIn peer_addr s (timer sent tokio_now now cleanup_at) sendable passive calm =
      let quiet = send_event-Quiet hash r has_tx peer_addr s sent tokio_now now in
      let (before, result) = handle_send_event hash r has_tx peer_addr s sent tokio_now now in
      after_quiet s before (or_cleanup hash r has_tx peer_addr s cleanup_at result) quiet.0 (
        or_cleanup-RestsIn peer_addr s cleanup_at result (
          Keeps-Rests s result passive
            (send-Keeps hash r has_tx peer_addr s sent tokio_now now sendable calm) quiet.1))

  pub refresh-actions :
      (s : HaLoopState) (now : ℕ)
      → s.state ≡ active
      → IsPassive s.peer_observation
      → let (s', effects) = refresh_local_state r has_tx s now in
        (s'.state ≡ active) × (actions effects ≡ [])
  unfolding refresh_local_state
  refresh-actions s now a passive =
      let d = decision_of r s now in
      let e = decided-active r s now a passive in
      (
        decided-state r s d now ∙ e,
        quiet_after (trigger_state_hooks r s.state d.state d.reason s.peer_observation now)
            (publish_loop_status r has_tx (decided r s d now) now)
            (trigger_none r s.state d.state d.reason s.peer_observation now a e)
            (actions-publish r has_tx (decided r s d now) now),
      )

  -- Active, and the peer was not when it was last seen.
  abbrev pub IsHolding : Outcome × List Effect → Type 0
  IsHolding (o, es) =
      (s : HaLoopState) × (o ≡ running s)
      × (s.state ≡ active)
      × IsPassive s.peer_observation
      × (actions es ≡ [])

  round-IsHolding :
      (peer_addr : SocketAddr) (s : HaLoopState) (i : Round)
      → IsSendable r
      → s.state ≡ active
      → IsPassive s.peer_observation
      → Calm i.event
      → IsHolding (round hash r has_tx peer_addr s i)
  unfolding round RestsIn
  round-IsHolding peer_addr s i sendable a passive calm =
      let (s0, refreshed) = refresh_local_state r has_tx s i.refreshed_at in
      let (active0, none_asked) = refresh-actions s i.refreshed_at a passive in
      let passive0 : IsPassive s0.peer_observation =
        subst IsPassive (sym (refresh-seen r has_tx s i.refreshed_at)) passive in
      let (s', e, state, passive', quiet) =
        after_quiet s0 refreshed (handle hash r has_tx peer_addr s0 i.event) none_asked
          (handle-RestsIn peer_addr s0 i.event sendable passive0 calm) in
      (s', e, state ∙ active0, passive', quiet)

  -- The loop holds on, whatever it asked for before.
  abbrev HoldsOn : Outcome → Type 0
  HoldsOn o =
      (s : HaLoopState) × (o ≡ running s) × (s.state ≡ active) × IsPassive s.peer_observation

  outcome-IsHolding :
      (peer_addr : SocketAddr) (o : Outcome) (is : List Round)
      → IsSendable r
      → HoldsOn o
      → All (λ i. Calm i.event) is
      → IsHolding (rounds hash r has_tx peer_addr o is)
  unfolding rounds
  outcome-IsHolding peer_addr o [] sendable (s, e, a, passive) calm =
      rw e (s, refl, a, passive, refl)
  outcome-IsHolding peer_addr o (i ∷ is) sendable (s, e, a, passive) calm =
      let first = round-IsHolding peer_addr s i sendable a passive calm.0 in
      let (s', e', a', passive', quiet) =
        outcome-IsHolding peer_addr (round hash r has_tx peer_addr s i).0 is sendable
          (first.0, first.1, first.2, first.3) calm.1 in
      rw e (
        s',
        e',
        a',
        passive',
        quiet_after (round hash r has_tx peer_addr s i).1
            (rounds hash r has_tx peer_addr (round hash r has_tx peer_addr s i).0 is).1 first.4
            quiet,
      )

  -- The node's interval is a u32 and its ids are not blank and have at most 64 bytes. The node
  -- is active, and its peer was never seen, or was not active when it was last seen. Over any
  -- rounds without a shutdown, in which I/O errors are transient and every datagram fits the
  -- buffer and does not decode to a packet of an active node, whatever the times are, the loop
  -- goes on active and with a peer that was not active when it was last seen, and its effects
  -- hold no address action.
  pub rounds-steady :
      (peer_addr : SocketAddr) (s : HaLoopState) (is : List Round)
      → IsSendable r
      → s.state ≡ active
      → IsPassive s.peer_observation
      → All (λ i. Calm i.event) is
      → let (o, es) = rounds hash r has_tx peer_addr (running s) is in
        (s' : HaLoopState) × (o ≡ running s')
        × (s'.state ≡ active)
        × IsPassive s'.peer_observation
        × (actions es ≡ [])
  rounds-steady peer_addr s is sendable a passive calm =
      outcome-IsHolding peer_addr (running s) is sendable (s, refl, a, passive) calm
