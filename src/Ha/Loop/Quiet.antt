-- ===== src/Ha/Loop/Quiet.antt =====
-- What the handlers of src/gruezi/ha.rs leave alone: the state, and the addresses.
use gruezi.Base.{
  ℕ, ◌≡◌, refl, Bool, true, false, Option, List, [], Bool-cases, inl, inr, length, leb, take,
}
use gruezi.Base.Result.{Result, ok, err, ◌>>=◌}
use gruezi.Base.Word.{Bytes}
use gruezi.Net.{SocketAddr}
use gruezi.Ha.Error.{Error, ErrorKind, is_transient_send_failure, is_transient_io_error}
use gruezi.Ha.Loop.{Effect}
use gruezi.Ha.Loop.Actions.{actions, actions-publish}
use gruezi.Ha.Loop.Handlers.{
  Recv, handle_receive_event, after_packet, handle_send_event, send_advertisement, hand_over,
  after_send, cleanup_before_exit, reschedule,
}
use gruezi.Ha.Loop.Transitions.{replay, replay-publish}
use gruezi.Ha.Receive.{PeerObservation, handle_incoming_packet}
use gruezi.Ha.Runtime.{HaRuntimeConfig}
use gruezi.Ha.State.{HaState, active, state_eq}
use gruezi.Ha.Status.{HaLoopState}

-- The effects hold no address action, and the state stays.
unfoldable pub Quiet : HaLoopState → Result Error (HaLoopState × List Effect) → Type 0
Quiet s (err e) = Unit {0}
Quiet s (ok (s', es)) = (actions es ≡ []) × (s'.state ≡ s.state)

module _ (hash : Bytes → ℕ) (r : HaRuntimeConfig) (has_tx : Bool) where
  packet-Quiet :
      (s : HaLoopState) (now : ℕ) (res : Result Error PeerObservation)
      → Quiet s (ok (after_packet hash r has_tx s now res))
  unfolding Quiet after_packet
  packet-Quiet s now (err e) = (refl, refl)
  packet-Quiet s now (ok o) = (actions-publish r has_tx _ now, refl)

  pub receive-Quiet :
      (s : HaLoopState) (recv : Recv) (buffer : Bytes) (now : ℕ)
      → Quiet s (handle_receive_event hash r has_tx s recv buffer now)
  unfolding Quiet handle_receive_event
  receive-Quiet s (ok (n, from)) buffer now = elim (Bool-cases (leb n (length buffer))) [
    | inl e ↦ rw e (
        packet-Quiet s now
          (handle_incoming_packet hash r (take n buffer) from now s.peer_observation))
    | inr e ↦ rw e tt
  ]
  receive-Quiet s (err e) buffer now = elim (Bool-cases (is_transient_io_error e)) [
    | inl t ↦ rw t (refl, refl)
    | inr t ↦ rw t tt
  ]

  pub cleanup-replay :
      (s : HaLoopState) (faulted : Bool) (now : ℕ) (b : Bool)
      → replay b (cleanup_before_exit hash r has_tx s faulted now).1 ≡ false
  unfolding replay cleanup_before_exit
  cleanup-replay s true now b = replay-publish false r has_tx _ now
  cleanup-replay s false now b = replay-publish false r has_tx _ now

  pub cleanup-inactive :
      (s : HaLoopState) (faulted : Bool) (now : ℕ)
      → false ≡ state_eq (cleanup_before_exit hash r has_tx s faulted now).0.state active
  unfolding cleanup_before_exit
  cleanup-inactive s faulted now = refl

  hand_over-quiet :
      (peer_addr : SocketAddr) (sequence : ℕ) (sent : Option ErrorKind) (built : Result Error Bytes)
      → actions (hand_over hash r has_tx peer_addr sequence sent built).0 ≡ []
  unfolding hand_over
  hand_over-quiet peer_addr sequence sent (ok encoded) = refl
  hand_over-quiet peer_addr sequence sent (err e) = refl

  send-quiet :
      (peer_addr : SocketAddr) (state : HaState) (sequence : ℕ) (sent : Option ErrorKind)
      → actions (send_advertisement hash r has_tx peer_addr state sequence sent).0 ≡ []
  unfolding send_advertisement
  send-quiet peer_addr state sequence sent = hand_over-quiet peer_addr _ sent _

  resend-Quiet :
      (s : HaLoopState) (result : Result Error ℕ) (tokio_now now : ℕ)
      → Quiet s (
          after_send hash r has_tx s result >>= λ s'.
          ok (reschedule hash r has_tx s' tokio_now now))
  unfolding Quiet after_send reschedule
  resend-Quiet s (ok n) tokio_now now = (actions-publish r has_tx _ now, refl)
  resend-Quiet s (err x) tokio_now now = elim (Bool-cases (is_transient_send_failure x)) [
    | inl t ↦ rw t (actions-publish r has_tx _ now, refl)
    | inr t ↦ rw t tt
  ]

  -- A send asks for no address action, before and after the datagram.
  pub send_event-Quiet :
      (peer_addr : SocketAddr) (s : HaLoopState) (sent : Option ErrorKind) (tokio_now now : ℕ)
      → let (before, result) = handle_send_event hash r has_tx peer_addr s sent tokio_now now in
        (actions before ≡ []) × Quiet s result
  unfolding handle_send_event
  send_event-Quiet peer_addr s sent tokio_now now =
      (send-quiet peer_addr s.state s.sequence sent, resend-Quiet s _ tokio_now now)
