-- ===== src/Ha/Loop/Keeps.antt =====
-- Handlers of src/gruezi/ha.rs that succeed, and leave the state and what was seen of the peer.
use gruezi.Base.{ℕ, ◌≡◌, refl, sym, subst, Bool, true, Option, none, some, List, length, leb, take}
use gruezi.Base.Result.{Result, ok, err, ◌>>=◌}
use gruezi.Base.Word.{Bytes, IsU32, saturating_add}
use gruezi.Net.{SocketAddr}
use gruezi.Ha.Auth.Sendable.{build_packet-encode_iff}
use gruezi.Ha.Error.{Error, ErrorKind, is_transient_send_failure, is_transient_io_error}
use gruezi.Ha.Loop.{Effect}
use gruezi.Ha.Loop.Handlers.{
  handle_receive_event, after_packet, handle_send_event, send_advertisement, hand_over, send_result,
  after_send, reschedule,
}
use gruezi.Ha.Packet.Encode.{IsId}
use gruezi.Ha.Receive.{handle_incoming_packet}
use gruezi.Ha.Runtime.{HaRuntimeConfig}
use gruezi.Ha.State.{HaState}
use gruezi.Ha.Status.{HaLoopState}

-- Its advertisements can be built and encoded.
abbrev pub IsSendable : HaRuntimeConfig → Type 0
IsSendable r = IsU32 r.advert_interval_ms × IsId r.node_id × IsId r.group_id

abbrev pub IsTransient : Option ErrorKind → Type 0
IsTransient none = Unit {0}
IsTransient (some k) = is_transient_io_error k ≡ true

-- The handler succeeds, and leaves the state and the observation.
unfoldable pub Keeps : HaLoopState → Result Error (HaLoopState × List Effect) → Type 0
Keeps s res =
    (s' : HaLoopState) × (es : List Effect) × (res ≡ ok (s', es))
    × (s'.state ≡ s.state)
    × (s'.peer_observation ≡ s.peer_observation)
    × (s'.startup_at ≡ s.startup_at)

module _ (hash : Bytes → ℕ) (r : HaRuntimeConfig) (has_tx : Bool) where
  pub receive-Keeps :
      (s : HaLoopState) (n : ℕ) (from : SocketAddr) (buffer : Bytes) (now : ℕ) (e : Error)
      → leb n (length buffer) ≡ true
      → handle_incoming_packet hash r (take n buffer) from now s.peer_observation ≡ err e
      → Keeps s (handle_receive_event hash r has_tx s (ok (n, from)) buffer now)
  unfolding Keeps handle_receive_event after_packet
  receive-Keeps s n from buffer now e le refused = rw (le, refused) (_, _, refl, refl, refl, refl)

  pub receive_error-Keeps :
      (s : HaLoopState) (k : ErrorKind) (buffer : Bytes) (now : ℕ)
      → is_transient_io_error k ≡ true
      → Keeps s (handle_receive_event hash r has_tx s (err k) buffer now)
  unfolding Keeps handle_receive_event
  receive_error-Keeps s k buffer now t = rw t (_, _, refl, refl, refl, refl)

  sent_result :
      (peer_addr : SocketAddr) (state : HaState) (sequence : ℕ) (sent : Option ErrorKind)
      → IsSendable r
      → (send_advertisement hash r has_tx peer_addr state sequence sent).1
        ≡ send_result hash r has_tx peer_addr (saturating_add sequence 1) sent
  unfolding send_advertisement hand_over
  sent_result peer_addr state sequence sent sendable =
      let (bs, built) =
        (build_packet-encode_iff hash r state (saturating_add sequence 1)).1 sendable in
      rw built refl

  resend-Keeps :
      (peer_addr : SocketAddr) (s : HaLoopState) (sequence : ℕ) (sent : Option ErrorKind)
      (tokio_now now : ℕ)
      → IsTransient sent
      → Keeps s (
          after_send hash r has_tx s (send_result hash r has_tx peer_addr sequence sent) >>= λ s'.
          ok (reschedule hash r has_tx s' tokio_now now))
  unfolding Keeps after_send reschedule send_result is_transient_send_failure
  resend-Keeps peer_addr s sequence none tokio_now now t = (_, _, refl, refl, refl, refl)
  resend-Keeps peer_addr s sequence (some k) tokio_now now t = rw t (_, _, refl, refl, refl, refl)

  pub send-Keeps :
      (peer_addr : SocketAddr) (s : HaLoopState) (sent : Option ErrorKind) (tokio_now now : ℕ)
      → IsSendable r
      → IsTransient sent
      → Keeps s (handle_send_event hash r has_tx peer_addr s sent tokio_now now).1
  unfolding handle_send_event
  send-Keeps peer_addr s sent tokio_now now sendable t =
      subst
        (λ x.
          Keeps s
            (after_send hash r has_tx s x >>= λ s'. ok (reschedule hash r has_tx s' tokio_now now)))
        (sym (sent_result peer_addr s.state s.sequence sent sendable))
        (resend-Keeps peer_addr s (saturating_add s.sequence 1) sent tokio_now now t)
