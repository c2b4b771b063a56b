-- ===== src/Ha/Loop/Prompt.antt =====
-- When the loop of src/gruezi/ha.rs is woken for its next advertisement.
use gruezi.Base.{
  ℕ, ◌+◌, ◌%◌, ◌^◌, ◌≤◌, ◌≡◌, refl, sym, subst, Bool, List, Bool-cases, inl, inr, length, leb,
  arith,
}
use gruezi.Base.Result.{Result, ok, err, ◌>>=◌}
use gruezi.Base.Word.{Bytes}
use gruezi.Net.{SocketAddr}
use gruezi.Ha.Error.{Error, is_transient_io_error, is_transient_send_failure}
use gruezi.Ha.Loop.{Effect, refresh_local_state, decision_of, decided}
use gruezi.Ha.Loop.Handlers.{
  Recv, handle_receive_event, after_packet, handle_send_event, after_send, reschedule,
}
use gruezi.Ha.Loop.Run.{
  Event, shutdown, receive, timer, Round, Outcome, running, stopped, failed, or_cleanup, handle,
  round,
}
use gruezi.Ha.Receive.{PeerObservation}
use gruezi.Ha.Runtime.{HaRuntimeConfig, advert_interval, next_advert_delay}
use gruezi.Ha.State.{state_eq}
use gruezi.Ha.Status.{HaLoopState}

-- No advertisement waits for longer than the interval.
delay-le : (r : HaRuntimeConfig) (sequence : ℕ) → next_advert_delay r sequence ≤ advert_interval r
unfolding next_advert_delay
delay-le r sequence = omega arith

decided-next :
    (r : HaRuntimeConfig) (s : HaLoopState) (now : ℕ)
    → (decided r s (decision_of r s now) now).next_advert_at ≡ s.next_advert_at
unfolding decided
decided-next r s now = elim (Bool-cases (state_eq s.state (decision_of r s now).state)) [
  | inl e ↦ rw e refl
  | inr e ↦ rw e refl
]

module _ (hash : Bytes → ℕ) (r : HaRuntimeConfig) (has_tx : Bool) (bound : ℕ) where
  -- The next advertisement is due by the bound.
  abbrev DueResult : Result Error (HaLoopState × List Effect) → Type 0
  DueResult (ok (s, es)) = s.next_advert_at ≤ bound
  DueResult (err e) = Unit {0}

  abbrev pub Due : Outcome → Type 0
  Due (running s) = s.next_advert_at ≤ bound
  Due (stopped s) = Unit {0}
  Due (failed s e) = Unit {0}

  -- A clock that is read for the next advertisement allows for the bound.
  abbrev pub Allows : Event → Type 0
  Allows (shutdown now) = Unit {0}
  Allows (receive recv buffer now cleanup_at) = Unit {0}
  Allows (timer sent tokio_now now cleanup_at) = tokio_now + advert_interval r ≤ bound

  packet-Due :
      (s : HaLoopState) (now : ℕ) (res : Result Error PeerObservation)
      → s.next_advert_at ≤ bound
      → (after_packet hash r has_tx s now res).0.next_advert_at ≤ bound
  unfolding after_packet
  packet-Due s now (err e) h = h
  packet-Due s now (ok o) h = h

  receive-DueResult :
      (s : HaLoopState) (recv : Recv) (buffer : Bytes) (now : ℕ)
      → s.next_advert_at ≤ bound
      → DueResult (handle_receive_event hash r has_tx s recv buffer now)
  unfolding handle_receive_event
  receive-DueResult s (ok (n, from)) buffer now h = elim (Bool-cases (leb n (length buffer))) [
    | inl e ↦ rw e (packet-Due s now _ h)
    | inr e ↦ rw e tt
  ]
  receive-DueResult s (err e) buffer now h = elim (Bool-cases (is_transient_io_error e)) [
    | inl t ↦ rw t h
    | inr t ↦ rw t tt
  ]

  reschedule-Due :
      (s : HaLoopState) (tokio_now now : ℕ)
      → tokio_now + advert_interval r ≤ bound
      → (reschedule hash r has_tx s tokio_now now).0.next_advert_at ≤ bound
  unfolding reschedule
  reschedule-Due s tokio_now now h = omega (arith, delay-le r ((s.sequence + 1) % 2 ^ 64))

  resend-DueResult :
      (s : HaLoopState) (result : Result Error ℕ) (tokio_now now : ℕ)
      → tokio_now + advert_interval r ≤ bound
      → DueResult (
          after_send hash r has_tx s result >>= λ s'.
          ok (reschedule hash r has_tx s' tokio_now now))
  unfolding after_send
  resend-DueResult s (ok n) tokio_now now h = reschedule-Due _ tokio_now now h
  resend-DueResult s (err x) tokio_now now h = elim (Bool-cases (is_transient_send_failure x)) [
    | inl t ↦ rw t (reschedule-Due s tokio_now now h)
    | inr t ↦ rw t tt
  ]

  or_cleanup-Due :
      (peer_addr : SocketAddr) (s : HaLoopState) (now : ℕ)
      (res : Result Error (HaLoopState × List Effect))
      → DueResult res
      → Due (or_cleanup hash r has_tx peer_addr s now res).0
  unfolding or_cleanup
  or_cleanup-Due peer_addr s now (ok x) h = h
  or_cleanup-Due peer_addr s now (err e) h = tt

  handle-Due :
      (peer_addr : SocketAddr) (s : HaLoopState) (e : Event)
      → s.next_advert_at ≤ bound
      → Allows e
      → Due (handle hash r has_tx peer_addr s e).0
  unfolding handle handle_send_event
  handle-Due peer_addr s (shutdown now) h allows = tt
  handle-Due peer_addr s (receive recv buffer now cleanup_at) h allows =
      or_cleanup-Due peer_addr s cleanup_at _ (receive-DueResult s recv buffer now h)
  handle-Due peer_addr s (timer sent tokio_now now cleanup_at) h allows =
      or_cleanup-Due peer_addr s cleanup_at _ (resend-DueResult s _ tokio_now now allows)

  pub round-Due :
      (peer_addr : SocketAddr) (s : HaLoopState) (i : Round)
      → s.next_advert_at ≤ bound
      → Allows i.event
      → Due (round hash r has_tx peer_addr s i).0
  unfolding round refresh_local_state
  round-Due peer_addr s i h allows =
      handle-Due peer_addr (refresh_local_state r has_tx s i.refreshed_at).0 i.event
        (subst (λ t. t ≤ bound) (sym (decided-next r s i.refreshed_at)) h) allows
