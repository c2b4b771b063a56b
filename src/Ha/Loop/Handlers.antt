-- ===== src/Ha/Loop/Handlers.antt =====
-- The handlers of the HA loop of src/gruezi/ha.rs for the events of `select!`, and the cleanup.
use gruezi.Base.{
  ℕ, ◌+◌, ◌%◌, ◌^◌, Bool, not, Option, none, some, List, [], ◌∷◌, ◌++◌, leb, if◌then◌else◌, length,
  take,
}
use gruezi.Base.Result.{Result, ok, err, ◌>>=◌}
use gruezi.Base.Word.{Bytes, saturating_add}
use gruezi.Addresses.{remove}
use gruezi.Hooks.{fault}
use gruezi.Net.{SocketAddr}
use gruezi.Ha.Auth.{build_packet}
use gruezi.Ha.Error.{
  Error, ErrorKind, send_failed, receive_failed, invalid_length, is_auth_failure,
  is_duplicate_node_id_failure, is_transient_io_error, is_transient_send_failure,
}
use gruezi.Ha.Packet.{encode}
use gruezi.Ha.Receive.{PeerObservation, handle_incoming_packet}
use gruezi.Ha.Runtime.{HaRuntimeConfig, next_advert_delay}
use gruezi.Ha.State.{HaState, init, state_eq, graceful_shutdown, runtime_fault}
use gruezi.Ha.Status.{HaCounters, HaLoopState}
use gruezi.Ha.Loop.{
  Effect, datagram, address_applied, hook_run, address_manager, hook_context, publish_loop_status,
}

-- The counters after a datagram that is refused.
unfoldable pub count_invalid : Error → HaCounters → HaCounters
count_invalid e c = record c {
  invalid_packets = saturating_add c.invalid_packets 1;
  auth_failures = if is_auth_failure e then saturating_add c.auth_failures 1 else c.auth_failures;
  duplicate_node_id_packets =
      if is_duplicate_node_id_failure e
      then saturating_add c.duplicate_node_id_packets 1
      else c.duplicate_node_id_packets;
}

-- `buffer.get(..len)`
abbrev received : Bytes → ℕ → Option Bytes
received buffer n = if leb n (length buffer) then some (take n buffer) else none

-- What `recv_from` gives: a length and a sender, or an I/O error.
abbrev pub Recv : Type 0
Recv = Result ErrorKind (ℕ × SocketAddr)

module _ (hash : Bytes → ℕ) (r : HaRuntimeConfig) (has_tx : Bool) where
  unfoldable pub after_packet :
      HaLoopState → ℕ → Result Error PeerObservation → HaLoopState × List Effect
  unfolding count_invalid
  after_packet s now (err e) = (record s { counters = count_invalid e s.counters }, [])
  after_packet s now (ok o) =
      let s' : HaLoopState = record s {
        peer_observation = some o;
        counters = record (s.counters) {
          packets_received = saturating_add s.counters.packets_received 1;
        };
      } in
      (s', publish_loop_status r has_tx s' now)

  after_recv :
      HaLoopState → ℕ → SocketAddr → Option Bytes → Result Error (HaLoopState × List Effect)
  unfolding after_packet
  after_recv s now from none = err invalid_length
  after_recv s now from (some payload) =
      ok (after_packet s now (handle_incoming_packet hash r payload from now s.peer_observation))

  -- `handle_receive_event`; an error ends the loop.
  unfoldable pub handle_receive_event :
      HaLoopState → Recv → Bytes → ℕ → Result Error (HaLoopState × List Effect)
  unfolding after_recv
  handle_receive_event s (ok (n, from)) buffer now = after_recv s now from (received buffer n)
  handle_receive_event s (err e) buffer now =
      if is_transient_io_error e then ok (s, []) else err (receive_failed e)

  -- What `send_to` gave.
  unfoldable pub send_result : SocketAddr → ℕ → Option ErrorKind → Result Error ℕ
  send_result peer_addr sequence none = ok sequence
  send_result peer_addr sequence (some k) = err (send_failed peer_addr k)

  -- The end of `send_advertisement`, on the packet that was built and encoded.
  unfoldable pub hand_over :
      SocketAddr → ℕ → Option ErrorKind → Result Error Bytes → List Effect × Result Error ℕ
  unfolding send_result
  hand_over peer_addr sequence sent (ok encoded) =
      (datagram encoded peer_addr ∷ [], send_result peer_addr sequence sent)
  hand_over peer_addr sequence sent (err e) = ([], err e)

  -- `send_advertisement`: the datagrams handed to the socket, and the new sequence number or an
  -- error. `sent` is what `send_to` gives.
  unfoldable pub send_advertisement :
      SocketAddr → HaState → ℕ → Option ErrorKind → List Effect × Result Error ℕ
  unfolding hand_over
  send_advertisement peer_addr state sequence sent =
      let next_sequence = saturating_add sequence 1 in
      hand_over peer_addr next_sequence sent (build_packet hash r state next_sequence >>= encode)

  -- The state after an attempt to send, or an error that ends the loop.
  unfoldable pub after_send : HaLoopState → Result Error ℕ → Result Error HaLoopState
  after_send s (ok sequence) = ok (record s {
    sequence = sequence;
    counters = record (s.counters) { packets_sent = saturating_add s.counters.packets_sent 1 };
  })
  after_send s (err e) = if is_transient_send_failure e then ok s else err e

  unfoldable pub reschedule : HaLoopState → ℕ → ℕ → HaLoopState × List Effect
  reschedule s tokio_now now =
      let s' : HaLoopState = record s {
        next_advert_at = tokio_now + next_advert_delay r ((s.sequence + 1) % 2 ^ 64);
      } in
      (s', publish_loop_status r has_tx s' now)

  -- `handle_send_event`: what was handed to the socket, then the new state with what is published,
  -- or an error that ends the loop and leaves the state as it was.
  unfoldable pub handle_send_event :
      SocketAddr
      → HaLoopState
      → Option ErrorKind
      → ℕ
      → ℕ
      → List Effect × Result Error (HaLoopState × List Effect)
  unfolding send_advertisement after_send reschedule
  handle_send_event peer_addr s sent tokio_now now =
      let (effects, result) = send_advertisement peer_addr s.state s.sequence sent in
      (effects, after_send s result >>= λ s'. ok (reschedule s' tokio_now now))

  -- `cleanup_before_exit`. Its awaited commands may fail: that is only logged.
  unfoldable pub cleanup_before_exit : HaLoopState → Bool → ℕ → HaLoopState × List Effect
  cleanup_before_exit s faulted now =
      let reason = if faulted then runtime_fault else graceful_shutdown in
      let context = hook_context r init s.state (some reason) s.peer_observation now in
      let moved = not (state_eq s.state init) in
      let s' : HaLoopState = record s {
        state = init;
        decision_reason = reason;
        last_transition_reason = if moved then some reason else s.last_transition_reason;
        last_transition_at = if moved then some now else s.last_transition_at;
      } in
      (
        s',
        address_applied (address_manager r) remove
            ∷ ((if faulted then hook_run r.hooks fault context ∷ [] else [])
                ++ publish_loop_status r has_tx s' now),
      )
