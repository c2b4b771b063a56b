-- ===== src/Cluster/Silent.antt =====
-- The parts of a round of the loop of src/gruezi/ha.rs that send nothing and keep the sequence
-- number.
use gruezi.Base.{
  ℕ, ◌≡◌, inl, inr, refl, ap, ◌∙◌, Bool, true, false, Bool-cases, List, [], ◌∷◌, ◌++◌, length, leb,
  All,
}
use gruezi.Base.Result.{Result, ok, err, ◌>>=◌}
use gruezi.Base.Word.{Bytes}
use gruezi.Net.{SocketAddr}
use gruezi.Cluster.{sent}
use gruezi.Cluster.Emits.{Emits, Emits-sent, publish-Emits}
use gruezi.Ha.Error.{Error, is_transient_io_error, is_transient_send_failure}
use gruezi.Ha.Loop.{
  Effect, published, address_spawned, hook_spawned, datagram, address_applied, hook_run,
  publish_loop_status, refresh_local_state, decision_of, decided,
}
use gruezi.Ha.Loop.Handlers.{
  Recv, handle_receive_event, after_packet, after_send, reschedule, cleanup_before_exit,
}
use gruezi.Ha.Loop.Run.{or_cleanup}
use gruezi.Ha.Loop.Vip.{final_state}
use gruezi.Ha.Receive.{PeerObservation}
use gruezi.Ha.Runtime.{HaRuntimeConfig}
use gruezi.Ha.State.{state_eq}
use gruezi.Ha.Status.{HaLoopState}

pub sent-++ : (xs ys : List Effect) → sent (xs ++ ys) ≡ sent xs ++ sent ys
sent-++ [] ys = refl
sent-++ (published _ ∷ xs) ys = sent-++ xs ys
sent-++ (address_spawned _ _ _ ∷ xs) ys = sent-++ xs ys
sent-++ (hook_spawned _ _ _ ∷ xs) ys = sent-++ xs ys
sent-++ (datagram bs _ ∷ xs) ys = ap (λ l. bs ∷ l) (sent-++ xs ys)
sent-++ (address_applied _ _ ∷ xs) ys = sent-++ xs ys
sent-++ (hook_run _ _ _ ∷ xs) ys = sent-++ xs ys

All-no : (xs : List Bytes) → All (λ x. ⊥) xs → xs ≡ []
All-no [] h = refl
All-no (x ∷ xs) h = absurd h.0

-- Effects that hold no datagram at all.
pub silent : (es : List Effect) → All (Emits (λ x. ⊥)) es → sent es ≡ []
silent es h = All-no (sent es) (Emits-sent (λ x. ⊥) es h)

pub sent-publish :
    (r : HaRuntimeConfig) (has_tx : Bool) (s : HaLoopState) (now : ℕ)
    → sent (publish_loop_status r has_tx s now) ≡ []
sent-publish r has_tx s now = silent _ (publish-Emits (λ x. ⊥) r has_tx s now)

decided-sequence :
    (r : HaRuntimeConfig) (s : HaLoopState) (now : ℕ)
    → (decided r s (decision_of r s now) now).sequence ≡ s.sequence
unfolding decided
decided-sequence r s now = elim (Bool-cases (state_eq s.state (decision_of r s now).state)) [
  | inl e ↦ rw e refl
  | inr e ↦ rw e refl
]

pub refresh-sequence :
    (r : HaRuntimeConfig) (has_tx : Bool) (s : HaLoopState) (now : ℕ)
    → (refresh_local_state r has_tx s now).0.sequence ≡ s.sequence
unfolding refresh_local_state
refresh-sequence r has_tx s now = decided-sequence r s now

-- The number after an attempt to send.
abbrev pub next : ℕ → Result Error ℕ → ℕ
next n (ok m) = m
next n (err e) = n

-- The number is `n`, and nothing is sent.
abbrev pub Silent : ℕ → HaLoopState × List Effect → Type 0
Silent n (s, es) = (s.sequence ≡ n) × (sent es ≡ [])

abbrev pub SilentResult : HaLoopState → ℕ → Result Error (HaLoopState × List Effect) → Type 0
SilentResult s n (err e) = s.sequence ≡ n
SilentResult s n (ok x) = Silent n x

module _ (hash : Bytes → ℕ) (r : HaRuntimeConfig) (has_tx : Bool) where
  packet-Silent :
      (s : HaLoopState) (now : ℕ) (res : Result Error PeerObservation)
      → Silent s.sequence (after_packet hash r has_tx s now res)
  unfolding after_packet
  packet-Silent s now (err e) = (refl, refl)
  packet-Silent s now (ok o) = (refl, sent-publish r has_tx _ now)

  pub receive-SilentResult :
      (s : HaLoopState) (recv : Recv) (buffer : Bytes) (now : ℕ)
      → SilentResult s s.sequence (handle_receive_event hash r has_tx s recv buffer now)
  unfolding handle_receive_event
  receive-SilentResult s (ok (n, from)) buffer now = elim (Bool-cases (leb n (length buffer))) [
    | inl e ↦ rw e (packet-Silent s now _)
    | inr e ↦ rw e refl
  ]
  receive-SilentResult s (err e) buffer now = elim (Bool-cases (is_transient_io_error e)) [
    | inl t ↦ rw t (refl, refl)
    | inr t ↦ rw t refl
  ]

  pub resend-SilentResult :
      (s : HaLoopState) (result : Result Error ℕ) (tokio_now now : ℕ)
      → SilentResult s (next s.sequence result) (
          after_send hash r has_tx s result >>= λ s'.
          ok (reschedule hash r has_tx s' tokio_now now))
  unfolding after_send reschedule
  resend-SilentResult s (ok n) tokio_now now = (refl, sent-publish r has_tx _ now)
  resend-SilentResult s (err x) tokio_now now = elim (Bool-cases (is_transient_send_failure x)) [
    | inl t ↦ rw t (refl, sent-publish r has_tx _ now)
    | inr t ↦ rw t refl
  ]

  pub cleanup-Silent :
      (s : HaLoopState) (faulted : Bool) (now : ℕ)
      → Silent s.sequence (cleanup_before_exit hash r has_tx s faulted now)
  unfolding cleanup_before_exit
  cleanup-Silent s true now = (refl, sent-publish r has_tx _ now)
  cleanup-Silent s false now = (refl, sent-publish r has_tx _ now)

  pub or_cleanup-Silent :
      (peer_addr : SocketAddr) (s : HaLoopState) (n now : ℕ)
      (res : Result Error (HaLoopState × List Effect))
      → SilentResult s n res
      → let (o, es) = or_cleanup hash r has_tx peer_addr s now res in Silent n (final_state o, es)
  unfolding or_cleanup
  or_cleanup-Silent peer_addr s n now (ok x) h = h
  or_cleanup-Silent peer_addr s n now (err e) h =
      let q = cleanup-Silent s true now in (q.0 ∙ h, q.1)
