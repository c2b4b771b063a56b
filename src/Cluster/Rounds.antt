-- ===== src/Cluster/Rounds.antt =====
-- What one round of the loop of src/gruezi/ha.rs sends, and what it may make of what was seen, where
-- the loop goes on after it.
use gruezi.Base.{
  ℕ, ◌≡◌, inl, inr, refl, sym, ap, ◌∙◌, subst, Bool, Bool-cases, Option, some, List, [], ◌∷◌, ◌++◌,
  take, length, leb, All, All-append,
}
use gruezi.Base.Result.{Result, ok, err, ◌>>=◌, >>=-eq-ok}
use gruezi.Base.Word.{Bytes, saturating_add}
use gruezi.Net.{SocketAddr}
use gruezi.Cluster.{sent, In, Delivers}
use gruezi.Ha.Auth.{build_packet}
use gruezi.Ha.Auth.Coverage.{build_packet_inv}
use gruezi.Ha.Error.{Error, ErrorKind, is_transient_io_error, is_transient_send_failure}
use gruezi.Ha.Loop.{Effect, refresh_local_state}
use gruezi.Ha.Loop.Handlers.{
  Recv, handle_receive_event, after_packet, handle_send_event, send_advertisement, hand_over,
  after_send, reschedule,
}
use gruezi.Ha.Loop.Run.{
  Event, shutdown, receive, timer, Round, Outcome, running, stopped, failed, or_cleanup, handle,
  round,
}
use gruezi.Ha.Loop.Transitions.{refresh-seen}
use gruezi.Ha.Packet.{encode}
use gruezi.Ha.Receive.{PeerObservation, handle_incoming_packet}
use gruezi.Ha.Runtime.{HaRuntimeConfig}
use gruezi.Ha.State.{HaState}
use gruezi.Ha.Status.{HaLoopState}
use gruezi.Cluster.Emits.{AdvertIn, Emits, publish-Emits, refresh-Emits}

pub All-map :
    {P Q : Bytes → Type 0} → ((x : Bytes) → P x → Q x) → (xs : List Bytes) → All P xs → All Q xs
All-map f [] h = tt
All-map f (x ∷ xs) h = (f x h.0, All-map f xs h.1)

pub All-In : (P : Bytes → Type 0) (x : Bytes) (xs : List Bytes) → All P xs → In x xs → P x
All-In P x [] all i = absurd i
All-In P x (y ∷ ys) all (inl e) = subst P (sym e) all.0
All-In P x (y ∷ ys) all (inr i) = All-In P x ys all.1 i

module _ (hash : Bytes → ℕ) (r : HaRuntimeConfig) (Seen : Option PeerObservation → Type 0) where
  -- Every observation that a packet can give is as it should be.
  abbrev pub IsAccepted : Bytes → SocketAddr → ℕ → Type 0
  IsAccepted payload from now =
      (seen : Option PeerObservation) (o : PeerObservation)
      → handle_incoming_packet hash r payload from now seen ≡ ok o
      → Seen (some o)

  -- Every observation that the event can give.
  abbrev pub Gives : Event → Type 0
  Gives (shutdown now) = Unit {0}
  Gives (receive (ok (n, from)) buffer now cleanup_at) = IsAccepted (take n buffer) from now
  Gives (receive (err k) buffer now cleanup_at) = Unit {0}
  Gives (timer sent tokio_now now cleanup_at) = Unit {0}

  pub event-Gives :
      ((payload : Bytes) (from : SocketAddr) (now : ℕ) → IsAccepted payload from now)
      → (e : Event) → Gives e
  event-Gives accepted (shutdown now) = tt
  event-Gives accepted (receive (ok (n, from)) buffer now cleanup_at) =
      accepted (take n buffer) from now
  event-Gives accepted (receive (err k) buffer now cleanup_at) = tt
  event-Gives accepted (timer sent tokio_now now cleanup_at) = tt

  pub network-Gives :
      (N : Bytes → Type 0)
      → ((payload : Bytes) (from : SocketAddr) (now : ℕ) → N payload → IsAccepted payload from now)
      → (e : Event) (network : List Bytes) → All N network
      → Delivers network e
      → Gives e
  network-Gives N accepted (shutdown now) network all d = tt
  network-Gives N accepted (receive (ok (n, from)) buffer now cleanup_at) network all d =
      accepted (take n buffer) from now (All-In N (take n buffer) network all d)
  network-Gives N accepted (receive (err k) buffer now cleanup_at) network all d = tt
  network-Gives N accepted (timer sent tokio_now now cleanup_at) network all d = tt

module _ (hash : Bytes → ℕ) (r : HaRuntimeConfig) (has_tx : Bool)
    (Seen : Option PeerObservation → Type 0) (Sent : Bytes → Type 0) where
  -- The state stays, what is remembered is as it should be, and so is what is sent.
  abbrev pub Kept : HaLoopState → HaLoopState × List Effect → Type 0
  Kept s (s', es) = Seen s'.peer_observation × All (Emits Sent) es × (s'.state ≡ s.state)

  KeptResult : HaLoopState → Result Error (HaLoopState × List Effect) → Type 0
  KeptResult s (err e) = Unit {0}
  KeptResult s (ok x) = Kept s x

  packet-Kept :
      (s : HaLoopState) (now : ℕ) (res : Result Error PeerObservation)
      → Seen s.peer_observation
      → ((o : PeerObservation) → res ≡ ok o → Seen (some o))
      → Kept s (after_packet hash r has_tx s now res)
  unfolding after_packet
  packet-Kept s now (err e) k gives = (k, tt, refl)
  packet-Kept s now (ok o) k gives = (gives o refl, publish-Emits Sent r has_tx _ now, refl)

  receive-KeptResult :
      (s : HaLoopState) (recv : Recv) (buffer : Bytes) (now u : ℕ)
      → Seen s.peer_observation
      → Gives hash r Seen (receive recv buffer now u)
      → KeptResult s (handle_receive_event hash r has_tx s recv buffer now)
  unfolding KeptResult handle_receive_event
  receive-KeptResult s (ok (n, from)) buffer now u k gives =
      elim (Bool-cases (leb n (length buffer))) [
        | inl e ↦ rw e (packet-Kept s now _ k (gives s.peer_observation))
        | inr e ↦ rw e tt
      ]
  receive-KeptResult s (err e) buffer now u k gives = elim (Bool-cases (is_transient_io_error e)) [
    | inl t ↦ rw t (k, tt, refl)
    | inr t ↦ rw t tt
  ]

  resend-KeptResult :
      (s : HaLoopState) (result : Result Error ℕ) (tokio_now now : ℕ)
      → Seen s.peer_observation
      → KeptResult s (
          after_send hash r has_tx s result >>= λ s'.
          ok (reschedule hash r has_tx s' tokio_now now))
  unfolding KeptResult after_send reschedule
  resend-KeptResult s (ok n) tokio_now now k = (k, publish-Emits Sent r has_tx _ now, refl)
  resend-KeptResult s (err x) tokio_now now k = elim (Bool-cases (is_transient_send_failure x)) [
    | inl t ↦ rw t (k, publish-Emits Sent r has_tx _ now, refl)
    | inr t ↦ rw t tt
  ]

  -- An outcome in which the loop goes on.
  KeptOutcome : HaLoopState → Outcome × List Effect → Type 0
  KeptOutcome s (running s', es) = Kept s (s', es)
  KeptOutcome s (stopped s', es) = Unit {0}
  KeptOutcome s (failed s' e, es) = Unit {0}

  or_cleanup-KeptOutcome :
      (peer_addr : SocketAddr) (s : HaLoopState) (now : ℕ)
      (res : Result Error (HaLoopState × List Effect))
      → KeptResult s res
      → KeptOutcome s (or_cleanup hash r has_tx peer_addr s now res)
  unfolding KeptResult KeptOutcome or_cleanup
  or_cleanup-KeptOutcome peer_addr s now (ok x) h = h
  or_cleanup-KeptOutcome peer_addr s now (err e) h = tt

  before-KeptOutcome :
      (s : HaLoopState) (before : List Effect) (x : Outcome × List Effect)
      → All (Emits Sent) before
      → KeptOutcome s x
      → KeptOutcome s (x.0, before ++ x.1)
  unfolding KeptOutcome
  before-KeptOutcome s before (running s', es) all h = (h.0, All-append _ before es all h.1, h.2)
  before-KeptOutcome s before (stopped s', es) all h = tt
  before-KeptOutcome s before (failed s' e, es) all h = tt

  hand_over-Emits :
      (peer_addr : SocketAddr) (state : HaState) (sequence k : ℕ) (sent : Option ErrorKind)
      (built : Result Error Bytes)
      → (build_packet hash r state sequence >>= encode) ≡ built
      → ((bs : Bytes) → AdvertIn hash r state bs → Sent bs)
      → All (Emits Sent) (hand_over hash r has_tx peer_addr k sent built).0
  unfolding hand_over
  hand_over-Emits peer_addr state sequence k sent (err e) h f = tt
  hand_over-Emits peer_addr state sequence k sent (ok bs) h f =
      let (p, built, encoded) = >>=-eq-ok (build_packet hash r state sequence) encode h in
      (f bs (sequence, ap encode (build_packet_inv hash r state sequence p built).1 ∙ encoded), tt)

  -- What the node sends in a state is as it should be.
  abbrev pub Sends : SocketAddr → HaLoopState → Type 0
  Sends peer_addr s =
      (sent : Option ErrorKind)
      → All (Emits Sent) (send_advertisement hash r has_tx peer_addr s.state s.sequence sent).0

  handle-KeptOutcome :
      (peer_addr : SocketAddr) (s : HaLoopState) (e : Event)
      → Seen s.peer_observation
      → Gives hash r Seen e
      → Sends peer_addr s
      → KeptOutcome s (handle hash r has_tx peer_addr s e)
  unfolding handle KeptOutcome
  handle-KeptOutcome peer_addr s (shutdown now) k gives sends = tt
  handle-KeptOutcome peer_addr s (receive recv buffer now cleanup_at) k gives sends =
      or_cleanup-KeptOutcome peer_addr s cleanup_at _
        (receive-KeptResult s recv buffer now cleanup_at k gives)
  handle-KeptOutcome peer_addr s (timer sent tokio_now now cleanup_at) k gives sends =
      unfold handle_send_event in
      before-KeptOutcome s _ _ (sends sent)
        (or_cleanup-KeptOutcome peer_addr s cleanup_at _ (resend-KeptResult s _ tokio_now now k))

  pub round-Kept :
      (peer_addr : SocketAddr) (s s' : HaLoopState) (i : Round) (es : List Effect)
      → Seen s.peer_observation
      → Gives hash r Seen i.event
      → ((bs : Bytes)
          → AdvertIn hash r (refresh_local_state r has_tx s i.refreshed_at).0.state bs
          → Sent bs)
      → round hash r has_tx peer_addr s i ≡ (running s', es)
      → Kept (refresh_local_state r has_tx s i.refreshed_at).0 (s', es)
  unfolding round KeptOutcome send_advertisement
  round-Kept peer_addr s s' i es k gives sends e =
      let refreshed = refresh_local_state r has_tx s i.refreshed_at in
      let kept : Seen refreshed.0.peer_observation =
        subst Seen (sym (refresh-seen r has_tx s i.refreshed_at)) k in
      subst (KeptOutcome refreshed.0) e (
        before-KeptOutcome refreshed.0 refreshed.1
          (handle hash r has_tx peer_addr refreshed.0 i.event)
          (refresh-Emits Sent r has_tx s i.refreshed_at)
          (handle-KeptOutcome peer_addr refreshed.0 i.event kept gives (λ sent.
            hand_over-Emits peer_addr refreshed.0.state (saturating_add refreshed.0.sequence 1) _
              sent _ refl sends)))
