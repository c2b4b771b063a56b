-- ===== src/Api/Shown.antt =====
-- What the status route of src/gruezi/api.rs shows of the loop of src/gruezi/ha.rs: the value of the
-- channel after any run.
use gruezi.Api.Shows.{Shows, borrow-++, publish-Shows, refresh-Shows}
use gruezi.Base.{
  ℕ, ◌≡◌, ◌⊎◌, refl, sym, ap, ◌∙◌, subst, Bool, true, false, Option, List, [], ◌∷◌, Bool-cases, inl,
  inr, length, leb, take,
}
use gruezi.Base.Result.{Result, ok, err, ◌>>=◌}
use gruezi.Base.Word.{Bytes}
use gruezi.Net.{SocketAddr}
use gruezi.Text.{Text, codes, text_eq}
use gruezi.Ha.Error.{Error, ErrorKind, is_transient_send_failure, is_transient_io_error}
use gruezi.Ha.Loop.{Effect, refresh_local_state, initialize_loop_state}
use gruezi.Ha.Loop.Handlers.{
  Recv, handle_receive_event, after_packet, handle_send_event, send_advertisement, hand_over,
  after_send, reschedule, cleanup_before_exit,
}
use gruezi.Ha.Loop.Run.{
  Event, shutdown, receive, timer, Round, Outcome, running, stopped, failed, or_cleanup, handle,
  round, rounds, run_with_status,
}
use gruezi.Ha.Loop.Transitions.{replay}
use gruezi.Ha.Loop.Vip.{final_state, run_with_status-replay}
use gruezi.Ha.Receive.{PeerObservation, handle_incoming_packet}
use gruezi.Ha.Runtime.{HaRuntimeConfig}
use gruezi.Ha.State.{active, state_eq}
use gruezi.Ha.Status.{HaLoopState, HaStatus}
use gruezi.Api.{served, status_response, borrow, first_status, ha_api, serve_status}

served_at :
    (status : HaStatus) (path : Text)
    → (path ≡ codes "/status") ⊎ (path ≡ codes "/ha/status")
    → ha_api status path ≡ served (status_response status)
unfolding ha_api serve_status text_eq
served_at status path (inl e) = rw e refl
served_at status path (inr e) = rw e refl

module _ (hash : Bytes → ℕ) (r : HaRuntimeConfig) where
  -- The effects of a handler keep the status in step.
  InStep : HaLoopState → Result Error (HaLoopState × List Effect) → Type 0
  InStep s (err e) = Unit {0}
  InStep s (ok (s', es)) = (status : HaStatus) → Shows s status → Shows s' (borrow status es)

  packet-InStep :
      (s : HaLoopState) (now : ℕ) (res : Result Error PeerObservation)
      → InStep s (ok (after_packet hash r true s now res))
  unfolding InStep after_packet borrow
  packet-InStep s now (err e) = λ status h. record {
    state = h.state;
    decision_reason = h.decision_reason;
    last_transition_reason = h.last_transition_reason;
    sequence = h.sequence;
    packets_sent = h.packets_sent;
    packets_received = h.packets_received;
    peer_node_id = h.peer_node_id;
    peer_state = h.peer_state;
  }
  packet-InStep s now (ok o) = λ status h. publish-Shows r _ status now

  receive-InStep :
      (s : HaLoopState) (recv : Recv) (buffer : Bytes) (now : ℕ)
      → InStep s (handle_receive_event hash r true s recv buffer now)
  unfolding InStep handle_receive_event borrow
  receive-InStep s (ok (n, from)) buffer now = elim (Bool-cases (leb n (length buffer))) [
    | inl e ↦ rw e (
        packet-InStep s now
          (handle_incoming_packet hash r (take n buffer) from now s.peer_observation))
    | inr e ↦ rw e tt
  ]
  receive-InStep s (err e) buffer now = elim (Bool-cases (is_transient_io_error e)) [
    | inl t ↦ rw t (λ status h. h)
    | inr t ↦ rw t tt
  ]

  resend-InStep :
      (s : HaLoopState) (result : Result Error ℕ) (tokio_now now : ℕ)
      → InStep s
          (after_send hash r true s result >>= λ s'. ok (reschedule hash r true s' tokio_now now))
  unfolding InStep after_send reschedule
  resend-InStep s (ok n) tokio_now now = λ status h. publish-Shows r _ status now
  resend-InStep s (err x) tokio_now now = elim (Bool-cases (is_transient_send_failure x)) [
    | inl t ↦ rw t (λ status h. publish-Shows r _ status now)
    | inr t ↦ rw t tt
  ]

  hand_over-borrow :
      (peer_addr : SocketAddr) (sequence : ℕ) (sent : Option ErrorKind) (built : Result Error Bytes)
      (status : HaStatus)
      → borrow status (hand_over hash r true peer_addr sequence sent built).0 ≡ status
  unfolding hand_over borrow
  hand_over-borrow peer_addr sequence sent (ok encoded) status = refl
  hand_over-borrow peer_addr sequence sent (err e) status = refl

  cleanup-Shows :
      (s : HaLoopState) (status : HaStatus) (faulted : Bool) (now : ℕ)
      → let (s', es) = cleanup_before_exit hash r true s faulted now in Shows s' (borrow status es)
  unfolding cleanup_before_exit borrow
  cleanup-Shows s status true now = publish-Shows r _ status now
  cleanup-Shows s status false now = publish-Shows r _ status now

  or_cleanup-Shows :
      (peer_addr : SocketAddr) (s : HaLoopState) (status : HaStatus) (now : ℕ)
      (res : Result Error (HaLoopState × List Effect))
      → InStep s res
      → Shows s status
      → let (o, es) = or_cleanup hash r true peer_addr s now res in
        Shows (final_state o) (borrow status es)
  unfolding InStep or_cleanup
  or_cleanup-Shows peer_addr s status now (ok (s', es)) step h = step status h
  or_cleanup-Shows peer_addr s status now (err x) step h = cleanup-Shows s status true now

  send_event-InStep :
      (peer_addr : SocketAddr) (s : HaLoopState) (sent : Option ErrorKind) (tokio_now now : ℕ)
      (status : HaStatus)
      → let (before, result) = handle_send_event hash r true peer_addr s sent tokio_now now in
        (borrow status before ≡ status) × InStep s result
  unfolding handle_send_event send_advertisement
  send_event-InStep peer_addr s sent tokio_now now status =
      (hand_over-borrow peer_addr _ sent _ status, resend-InStep s _ tokio_now now)

  handle-Shows :
      (peer_addr : SocketAddr) (s : HaLoopState) (status : HaStatus) (e : Event)
      → Shows s status
      → let (o, es) = handle hash r true peer_addr s e in Shows (final_state o) (borrow status es)
  unfolding handle
  handle-Shows peer_addr s status (shutdown now) h = cleanup-Shows s status false now
  handle-Shows peer_addr s status (receive recv buffer now cleanup_at) h =
      or_cleanup-Shows peer_addr s status cleanup_at _ (receive-InStep s recv buffer now) h
  handle-Shows peer_addr s status (timer sent tokio_now now cleanup_at) h =
      let (same, step) = send_event-InStep peer_addr s sent tokio_now now status in
      let (before, result) = handle_send_event hash r true peer_addr s sent tokio_now now in
      let (o, after) = or_cleanup hash r true peer_addr s cleanup_at result in
      subst (Shows (final_state o))
        (ap (λ x. borrow x after) (sym same) ∙ sym (borrow-++ status before after))
        (or_cleanup-Shows peer_addr s status cleanup_at result step h)

  round-Shows :
      (peer_addr : SocketAddr) (s : HaLoopState) (status : HaStatus) (i : Round)
      → let (o, es) = round hash r true peer_addr s i in Shows (final_state o) (borrow status es)
  unfolding round
  round-Shows peer_addr s status i =
      let (s', refreshed) = refresh_local_state r true s i.refreshed_at in
      let (o, handled) = handle hash r true peer_addr s' i.event in
      subst (Shows (final_state o)) (sym (borrow-++ status refreshed handled)) (
        handle-Shows peer_addr s' (borrow status refreshed) i.event
          (refresh-Shows r s status i.refreshed_at))

  rounds-Shows :
      (peer_addr : SocketAddr) (o : Outcome) (is : List Round) (status : HaStatus)
      → Shows (final_state o) status
      → let (final, es) = rounds hash r true peer_addr o is in
        Shows (final_state final) (borrow status es)
  unfolding rounds borrow
  rounds-Shows peer_addr (running s) [] status h = h
  rounds-Shows peer_addr (running s) (i ∷ is) status h =
      let (o, first) = round hash r true peer_addr s i in
      let (final, more) = rounds hash r true peer_addr o is in
      subst (Shows (final_state final)) (sym (borrow-++ status first more))
        (rounds-Shows peer_addr o is (borrow status first) (round-Shows peer_addr s status i))
  rounds-Shows peer_addr (stopped s) is status h = h
  rounds-Shows peer_addr (failed s e) is status h = h

  run-Shows :
      (peer_addr : SocketAddr) (startup_at tokio_now : ℕ) (is : List Round)
      → let (o, es) = run_with_status hash r true peer_addr startup_at tokio_now is in
        Shows (final_state o) (borrow (first_status r) es)
  unfolding run_with_status initialize_loop_state
  run-Shows peer_addr startup_at tokio_now is =
      let (s, first) = initialize_loop_state r true startup_at tokio_now in
      let (final, more) = rounds hash r true peer_addr (running s) is in
      subst (Shows (final_state final)) (sym (borrow-++ (first_status r) first more)) (
        rounds-Shows peer_addr (running s) is (borrow (first_status r) first)
          (publish-Shows r s (first_status r) startup_at))

  -- After any run of the loop with a status channel, the API answers a request for `/status` or
  -- `/ha/status` with a status that shows the loop's state, last decision, last transition's
  -- reason, sequence number, packets sent and received, and the peer's node id and state; and
  -- it shows the active state exactly if replaying the address actions of the run leaves the
  -- node with the addresses.
  pub run_with_status-Shows :
      (peer_addr : SocketAddr) (startup_at tokio_now : ℕ) (is : List Round) (path : Text)
      → (path ≡ codes "/status") ⊎ (path ≡ codes "/ha/status")
      → let (o, es) = run_with_status hash r true peer_addr startup_at tokio_now is in
        (status : HaStatus) × (ha_api (borrow (first_status r) es) path
          ≡ served (status_response status))
        × Shows (final_state o) status
        × (replay false es ≡ state_eq status.state active)
  run_with_status-Shows peer_addr startup_at tokio_now is path at =
      let (o, es) = run_with_status hash r true peer_addr startup_at tokio_now is in
      let shows = run-Shows peer_addr startup_at tokio_now is in
      (
        borrow (first_status r) es,
        served_at (borrow (first_status r) es) path at,
        shows,
        run_with_status-replay hash r true peer_addr startup_at tokio_now is
            ∙ ap (λ x. state_eq x active) (sym shows.state),
      )
