-- ===== src/Ha/Loop/Invariant.antt =====
-- An invariant of `HaLoopState` of src/gruezi/ha.rs, kept by every handler of the loop.
use gruezi.Ha.Loop.Consistent.{IsConsistent, count_invalid-IsCounted, decided-IsConsistent}
use gruezi.Base.{
  ℕ, ◌≡◌, refl, sym, ap, ◌∙◌, Bool, true, false, Option, none, some, List, [], ◌∷◌, arith,
  Bool-cases, inl, inr, length, leb, take,
}
use gruezi.Base.Result.{Result, ok, err, ◌>>=◌}
use gruezi.Base.Word.{Bytes, saturating_add}
use gruezi.Net.{SocketAddr}
use gruezi.Ha.Error.{Error, ErrorKind, is_transient_send_failure, is_transient_io_error}
use gruezi.Ha.Loop.{Effect, decision_of, refresh_local_state, initial_state, initialize_loop_state}
use gruezi.Ha.Loop.Handlers.{
  Recv, handle_receive_event, after_packet, handle_send_event, hand_over, send_result,
  send_advertisement, after_send, cleanup_before_exit, reschedule,
}
use gruezi.Ha.Loop.Run.{
  Event, shutdown, receive, timer, Round, Outcome, running, stopped, failed, or_cleanup, handle,
  round, rounds, run_with_status,
}
use gruezi.Ha.Loop.Vip.{final_state}
use gruezi.Ha.Receive.{PeerObservation, observe, handle_incoming_packet}
use gruezi.Ha.Receive.Accept.{handle_incoming_packet_iff}
use gruezi.Ha.Runtime.{HaRuntimeConfig}
use gruezi.Ha.State.{init, state_eq}
use gruezi.Ha.Status.{HaLoopState}

-- The state of a result, if it has one, is consistent.
Holds : HaRuntimeConfig → Result Error (HaLoopState × List Effect) → Type 0
Holds r (err e) = Unit {0}
Holds r (ok (s, es)) = IsConsistent r s

module _ (hash : Bytes → ℕ) (r : HaRuntimeConfig) (has_tx : Bool) where
  packet-IsConsistent :
      (s : HaLoopState) (now : ℕ) (payload : Bytes) (from : SocketAddr)
      (res : Result Error PeerObservation)
      → handle_incoming_packet hash r payload from now s.peer_observation ≡ res
      → IsConsistent r s
      → IsConsistent r (after_packet hash r has_tx s now res).0
  unfolding after_packet
  packet-IsConsistent s now payload from (err e) h i = record {
    sent = i.sent;
    counted = count_invalid-IsCounted e s.counters i.counted;
    other_node = i.other_node;
    transition = i.transition;
  }
  packet-IsConsistent s now payload from (ok o) h i =
      let (p, decoded, accepts, same) =
        (handle_incoming_packet_iff hash r payload from now s.peer_observation o).0 h in
      record {
        sent = i.sent;
        counted = record {
          auth_le = i.counted.auth_le;
          duplicate_le = i.counted.duplicate_le;
          invalid_le = i.counted.invalid_le;
        };
        other_node =
            λ e. accepts.other_node (unfold observe in (ap (λ x. x.node_id) (sym same) ∙ e));
        transition = i.transition;
      }

  receive-Holds :
      (s : HaLoopState) (recv : Recv) (buffer : Bytes) (now : ℕ)
      → IsConsistent r s
      → Holds r (handle_receive_event hash r has_tx s recv buffer now)
  unfolding Holds handle_receive_event
  receive-Holds s (ok (n, from)) buffer now i = elim (Bool-cases (leb n (length buffer))) [
    | inl e ↦ rw e (packet-IsConsistent s now (take n buffer) from _ refl i)
    | inr e ↦ rw e tt
  ]
  receive-Holds s (err e) buffer now i = elim (Bool-cases (is_transient_io_error e)) [
    | inl t ↦ rw t i
    | inr t ↦ rw t tt
  ]

  -- What the state becomes with a packet that was sent under a number.
  resend-Holds :
      (s : HaLoopState) (result : Result Error ℕ) (tokio_now now : ℕ)
      → ((n : ℕ) → result ≡ ok n → n ≡ saturating_add s.sequence 1)
      → IsConsistent r s
      → Holds r (
          after_send hash r has_tx s result >>= λ s'.
          ok (reschedule hash r has_tx s' tokio_now now))
  unfolding Holds after_send reschedule
  resend-Holds s (ok n) tokio_now now next i = record {
    sent = next n refl ∙ ap (λ k. saturating_add k 1) i.sent;
    counted = record {
      auth_le = i.counted.auth_le;
      duplicate_le = i.counted.duplicate_le;
      invalid_le = i.counted.invalid_le;
    };
    other_node = i.other_node;
    transition = i.transition;
  }
  resend-Holds s (err x) tokio_now now next i = elim (Bool-cases (is_transient_send_failure x)) [
    | inl t ↦ rw t (record {
      sent = i.sent;
      counted = i.counted;
      other_node = i.other_node;
      transition = i.transition;
    })
    | inr t ↦ rw t tt
  ]

  hand_over-next :
      (peer_addr : SocketAddr) (k : ℕ) (sent : Option ErrorKind) (built : Result Error Bytes)
      (n : ℕ)
      → (hand_over hash r has_tx peer_addr k sent built).1 ≡ ok n
      → n ≡ k
  unfolding hand_over send_result
  hand_over-next peer_addr k none (ok bs) n e = cc e
  hand_over-next peer_addr k (some x) (ok bs) n e = absurd (cc e)
  hand_over-next peer_addr k sent (err x) n e = absurd (cc e)

  send-next :
      (peer_addr : SocketAddr) (s : HaLoopState) (sent : Option ErrorKind) (n : ℕ)
      → (send_advertisement hash r has_tx peer_addr s.state s.sequence sent).1 ≡ ok n
      → n ≡ saturating_add s.sequence 1
  unfolding send_advertisement
  send-next peer_addr s sent n e = hand_over-next peer_addr (saturating_add s.sequence 1) sent _ n e

  send-Holds :
      (peer_addr : SocketAddr) (s : HaLoopState) (sent : Option ErrorKind) (tokio_now now : ℕ)
      → IsConsistent r s
      → Holds r (handle_send_event hash r has_tx peer_addr s sent tokio_now now).1
  unfolding handle_send_event
  send-Holds peer_addr s sent tokio_now now i =
      resend-Holds s (send_advertisement hash r has_tx peer_addr s.state s.sequence sent).1
        tokio_now now (send-next peer_addr s sent) i

  cleanup-IsConsistent :
      (s : HaLoopState) (faulted : Bool) (now : ℕ)
      → IsConsistent r s
      → IsConsistent r (cleanup_before_exit hash r has_tx s faulted now).0
  unfolding cleanup_before_exit
  cleanup-IsConsistent s faulted now i = record {
    sent = i.sent;
    counted = i.counted;
    other_node = i.other_node;
    transition = elim (Bool-cases (state_eq s.state init)) [
      | inl e ↦ rw e i.transition
      | inr e ↦ rw e refl
    ];
  }

  or_cleanup-IsConsistent :
      (s : HaLoopState) (now : ℕ) (peer_addr : SocketAddr)
      (res : Result Error (HaLoopState × List Effect))
      → IsConsistent r s
      → Holds r res
      → IsConsistent r (final_state (or_cleanup hash r has_tx peer_addr s now res).0)
  unfolding Holds or_cleanup
  or_cleanup-IsConsistent s now peer_addr (ok (s', es)) i h = h
  or_cleanup-IsConsistent s now peer_addr (err x) i h = cleanup-IsConsistent s true now i

  handle-IsConsistent :
      (peer_addr : SocketAddr) (s : HaLoopState) (e : Event)
      → IsConsistent r s
      → IsConsistent r (final_state (handle hash r has_tx peer_addr s e).0)
  unfolding handle
  handle-IsConsistent peer_addr s (shutdown now) i = cleanup-IsConsistent s false now i
  handle-IsConsistent peer_addr s (receive recv buffer now cleanup_at) i =
      or_cleanup-IsConsistent s cleanup_at peer_addr _ i (receive-Holds s recv buffer now i)
  handle-IsConsistent peer_addr s (timer sent tokio_now now cleanup_at) i =
      or_cleanup-IsConsistent s cleanup_at peer_addr _ i
        (send-Holds peer_addr s sent tokio_now now i)

  rounds-IsConsistent :
      (peer_addr : SocketAddr) (o : Outcome) (is : List Round)
      → IsConsistent r (final_state o)
      → IsConsistent r (final_state (rounds hash r has_tx peer_addr o is).0)
  unfolding rounds round refresh_local_state
  rounds-IsConsistent peer_addr (running s) [] c = c
  rounds-IsConsistent peer_addr (running s) (i ∷ is) c =
      rounds-IsConsistent peer_addr (round hash r has_tx peer_addr s i).0 is (
        handle-IsConsistent peer_addr _ i.event
          (decided-IsConsistent r s (decision_of r s i.refreshed_at) i.refreshed_at c))
  rounds-IsConsistent peer_addr (stopped s) is c = c
  rounds-IsConsistent peer_addr (failed s e) is c = c

  -- Whatever the rounds of the loop are, its state at the end is consistent: the sequence
  -- number is the number of packets sent, authentication failures and duplicate node ids are
  -- each at most the invalid packets, which fit a u64, a peer that is remembered has another
  -- node id, and the last transition has a reason exactly if it has a time.
  pub run_with_status-IsConsistent :
      (peer_addr : SocketAddr) (startup_at tokio_now : ℕ) (is : List Round)
      → IsConsistent r
          (final_state (run_with_status hash r has_tx peer_addr startup_at tokio_now is).0)
  unfolding run_with_status initialize_loop_state initial_state
  run_with_status-IsConsistent peer_addr startup_at tokio_now is =
      rounds-IsConsistent peer_addr (running (initial_state r startup_at tokio_now)) is (record {
        sent = refl;
        counted = record {
          auth_le = omega arith;
          duplicate_le = omega arith;
          invalid_le = omega arith;
        };
        other_node = tt;
        transition = refl;
      })
