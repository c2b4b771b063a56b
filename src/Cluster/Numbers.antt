-- ===== src/Cluster/Numbers.antt =====
-- The sequence numbers that the loop of src/gruezi/ha.rs puts on the wire.
use gruezi.Base.{
  ℕ, ◌≡◌, refl, sym, ap, ◌∙◌, subst, Bool, true, false, ltb, length, All, All-append, ◌⊎◌, inl, inr,
  Option, none, some, List, [], ◌∷◌,
}
use gruezi.Base.Result.{Result, ok, err, ◌>>=◌, ◌>>◌, bail_if, >>=-eq-ok}
use gruezi.Base.Word.{Bytes, saturating_add, u32_max}
use gruezi.Net.{SocketAddr}
use gruezi.Cluster.{sent}
use gruezi.Cluster.Silent.{
  Silent, sent-++, silent, refresh-sequence, next, or_cleanup-Silent, receive-SilentResult,
  resend-SilentResult, cleanup-Silent,
}
use gruezi.Cluster.Emits.{refresh-Emits}
use gruezi.Ha.Auth.{build_packet}
use gruezi.Ha.Auth.Coverage.{tagged, build_packet_inv}
use gruezi.Ha.Error.{
  Error, ErrorKind, is_transient_send_failure, Field, node_id_field, group_id_field, empty_field,
  long_field, long_interval, long_auth_tag,
}
use gruezi.Text.{Text, is_blank, len}
use gruezi.Ha.Loop.{Effect, refresh_local_state, initialize_loop_state, initial_state}
use gruezi.Ha.Loop.Handlers.{
  handle_receive_event, handle_send_event, send_advertisement, hand_over, send_result, after_send,
  reschedule,
}
use gruezi.Ha.Loop.Run.{
  Event, shutdown, receive, timer, Round, Outcome, running, stopped, failed, or_cleanup, handle,
  round, rounds, run_with_status,
}
use gruezi.Ha.Loop.Vip.{final_state}
use gruezi.Ha.Packet.{HaPacket, encode, validate_packet_field, max_id_len, max_auth_tag_len, wire}
use gruezi.Ha.Runtime.{HaRuntimeConfig}
use gruezi.Ha.State.{HaState}
use gruezi.Ha.Status.{HaLoopState}

-- The number that is reached after a try to send, of which `none` is a success.
abbrev pub after_try : ℕ → Option ErrorKind → ℕ
after_try n none = saturating_add n 1
after_try n (some k) = n

abbrev pub after_event : ℕ → Event → ℕ
after_event n (shutdown now) = n
after_event n (receive recv buffer now cleanup_at) = n
after_event n (timer tried tokio_now now cleanup_at) = after_try n tried

-- The number that is reached after some rounds: one more for each send that succeeded, up to
-- the end of u64.
abbrev pub reached : ℕ → List Round → ℕ
reached n [] = n
reached n (i ∷ is) = reached (after_event n i.event) is

-- A failure that ends the loop.
abbrev IsLasting : {A : Type 0} → Result Error A → Type 0
IsLasting (ok a) = Unit {0}
IsLasting (err e) = is_transient_send_failure e ≡ false

field-IsLasting :
    {A : Type 0}
    → (value : Text) (field : Field) (max : ℕ) (rest : Result Error A) → IsLasting rest
    → IsLasting (validate_packet_field value field max >> rest)
unfolding validate_packet_field is_transient_send_failure
field-IsLasting value field max rest h = blank_or_long (is_blank value) (ltb max (len value))
  where
    blank_or_long :
        (b c : Bool)
        → IsLasting ((bail_if b (empty_field field) >> bail_if c (long_field field max)) >> rest)
    blank_or_long true c = refl
    blank_or_long false true = refl
    blank_or_long false false = h

encode-IsLasting : (p : HaPacket) → IsLasting (encode p)
unfolding encode is_transient_send_failure
encode-IsLasting p = field-IsLasting p.node_id node_id_field max_id_len _ (
    field-IsLasting p.group_id group_id_field max_id_len _ (
      late (ltb max_auth_tag_len (length p.auth_tag)) (ltb 255 (len p.node_id))
        (ltb 255 (len p.group_id)) (ltb 65535 (length p.auth_tag))))
  where
    late :
        (b c d e : Bool)
        → IsLasting {A = Bytes} (
            bail_if b (long_auth_tag max_auth_tag_len)
            >> (bail_if c (long_field node_id_field 255)
                >> (bail_if d (long_field group_id_field 255)
                    >> (bail_if e (long_auth_tag 65535) >> ok (wire p)))))
    late true c d e = refl
    late false true d e = refl
    late false false true e = refl
    late false false false true = refl
    late false false false false = tt

module _ (hash : Bytes → ℕ) (r : HaRuntimeConfig) (has_tx : Bool) where
  -- An advertisement of the node with a number.
  abbrev pub IsAdvertOf : ℕ → Bytes → Type 0
  IsAdvertOf n bs = (state : HaState) × (encode (tagged hash r state n) ≡ ok bs)

  advertised :
      (state : HaState) (n : ℕ) (bs : Bytes)
      → (build_packet hash r state (saturating_add n 1) >>= encode) ≡ ok bs
      → IsAdvertOf (saturating_add n 1) bs
  advertised state n bs h =
      let (p, built, encoded) =
        >>=-eq-ok (build_packet hash r state (saturating_add n 1)) encode h in
      (state, ap encode (build_packet_inv hash r state (saturating_add n 1) p built).1 ∙ encoded)

  built-IsLasting : (state : HaState) (n : ℕ) → IsLasting (build_packet hash r state n >>= encode)
  unfolding build_packet is_transient_send_failure
  built-IsLasting state n = long_or_not (ltb u32_max r.advert_interval_ms)
    where
      long_or_not :
          (b : Bool)
          → IsLasting ((bail_if b long_interval >> ok (tagged hash r state n)) >>= encode)
      long_or_not true = refl
      long_or_not false = encode-IsLasting (tagged hash r state n)

  -- A datagram has the number after the one that was reached, and what is reached after the try
  -- is that number if the send succeeded; unless nothing could be sent, which ends the loop.
  hand_over-next :
      (peer_addr : SocketAddr) (state : HaState) (n : ℕ) (tried : Option ErrorKind)
      (built : Result Error Bytes)
      → (build_packet hash r state (saturating_add n 1) >>= encode) ≡ built
      → let (es, result) = hand_over hash r has_tx peer_addr (saturating_add n 1) tried built in
        All (IsAdvertOf (saturating_add n 1)) (sent es)
        × ((next n result ≡ after_try n tried)
            ⊎ ((e : Error) × (result ≡ err e) × (is_transient_send_failure e ≡ false)))
  unfolding hand_over send_result
  hand_over-next peer_addr state n tried (err e) h =
      (tt, inr (e, refl, subst IsLasting h (built-IsLasting state (saturating_add n 1))))
  hand_over-next peer_addr state n none (ok bs) h = ((advertised state n bs h, tt), inl refl)
  hand_over-next peer_addr state n (some k) (ok bs) h = ((advertised state n bs h, tt), inl refl)

  send-next :
      (peer_addr : SocketAddr) (state : HaState) (n : ℕ) (tried : Option ErrorKind)
      → let (es, result) = send_advertisement hash r has_tx peer_addr state n tried in
        All (IsAdvertOf (saturating_add n 1)) (sent es)
        × ((next n result ≡ after_try n tried)
            ⊎ ((e : Error) × (result ≡ err e) × (is_transient_send_failure e ≡ false)))
  unfolding send_advertisement
  send-next peer_addr state n tried = hand_over-next peer_addr state n tried _ refl

  -- What a round reaches, where the loop goes on after it.
  abbrev Reaches : ℕ → Outcome → Type 0
  Reaches n (running s) = s.sequence ≡ n
  Reaches n (stopped s) = Unit {0}
  Reaches n (failed s e) = Unit {0}

  Reaches-final : (n : ℕ) (o : Outcome) → (final_state o).sequence ≡ n → Reaches n o
  Reaches-final n (running s) h = h
  Reaches-final n (stopped s) h = tt
  Reaches-final n (failed s e) h = tt

  resend-Reaches :
      (peer_addr : SocketAddr) (s : HaLoopState) (n tokio_now now cleanup_at : ℕ)
      (result : Result Error ℕ)
      → (next s.sequence result ≡ n)
        ⊎ ((e : Error) × (result ≡ err e) × (is_transient_send_failure e ≡ false))
      → Reaches n
          (or_cleanup hash r has_tx peer_addr s cleanup_at (
            after_send hash r has_tx s result >>= λ s'.
            ok (reschedule hash r has_tx s' tokio_now now))).0
  resend-Reaches peer_addr s n tokio_now now cleanup_at result (inl h) = Reaches-final n _ (
      (or_cleanup-Silent hash r has_tx peer_addr s (next s.sequence result) cleanup_at _
        (resend-SilentResult hash r has_tx s result tokio_now now)).0
      ∙ h)
  resend-Reaches peer_addr s n tokio_now now cleanup_at result (inr (e, is_err, lasting)) =
      unfold after_send or_cleanup in rw (is_err, lasting) tt

  -- The datagrams of an outcome have a number, and so much is reached.
  abbrev Counts : ℕ → ℕ → Outcome × List Effect → Type 0
  Counts n m (o, es) = All (IsAdvertOf (saturating_add n 1)) (sent es) × Reaches m o

  Silent-Counts :
      (n : ℕ) (x : Outcome × List Effect) → Silent n (final_state x.0, x.1) → Counts n n x
  Silent-Counts n x h =
      (subst (All (IsAdvertOf (saturating_add n 1))) (sym h.1) tt, Reaches-final n x.0 h.0)

  handle-Counts :
      (peer_addr : SocketAddr) (s : HaLoopState) (e : Event)
      → Counts s.sequence (after_event s.sequence e) (handle hash r has_tx peer_addr s e)
  unfolding handle
  handle-Counts peer_addr s (shutdown now) =
      Silent-Counts s.sequence (handle hash r has_tx peer_addr s (shutdown now))
        (cleanup-Silent hash r has_tx s false now)
  handle-Counts peer_addr s (receive recv buffer now cleanup_at) =
      let result = handle_receive_event hash r has_tx s recv buffer now in
      Silent-Counts s.sequence (or_cleanup hash r has_tx peer_addr s cleanup_at result) (
        or_cleanup-Silent hash r has_tx peer_addr s s.sequence cleanup_at result
          (receive-SilentResult hash r has_tx s recv buffer now))
  handle-Counts peer_addr s (timer tried tokio_now now cleanup_at) =
      let n = s.sequence in
      let (before, result) = send_advertisement hash r has_tx peer_addr s.state n tried in
      let handled = after_send hash r has_tx s result >>= λ s'.
      ok (reschedule hash r has_tx s' tokio_now now) in
      let x = or_cleanup hash r has_tx peer_addr s cleanup_at handled in
      let (numbered, reaches) = send-next peer_addr s.state n tried in
      let quiet : sent x.1 ≡ [] =
        (or_cleanup-Silent hash r has_tx peer_addr s (next n result) cleanup_at handled
          (resend-SilentResult hash r has_tx s result tokio_now now)).1 in
      unfold handle_send_event in
      (
        subst (All (IsAdvertOf (saturating_add n 1))) (sym (sent-++ before x.1))
            (All-append _ (sent before) (sent x.1) numbered (subst (All _) (sym quiet) tt)),
        resend-Reaches peer_addr s (after_try n tried) tokio_now now cleanup_at result reaches,
      )

  round-Counts :
      (peer_addr : SocketAddr) (s : HaLoopState) (i : Round)
      → Counts s.sequence (after_event s.sequence i.event) (round hash r has_tx peer_addr s i)
  unfolding round
  round-Counts peer_addr s i =
      let (s', refreshed) = refresh_local_state r has_tx s i.refreshed_at in
      let x = handle hash r has_tx peer_addr s' i.event in
      let same = refresh-sequence r has_tx s i.refreshed_at in
      let (numbered, reaches) =
        subst (λ n. Counts n (after_event n i.event) x) same (handle-Counts peer_addr s' i.event) in
      (
        subst (All (IsAdvertOf (saturating_add s.sequence 1))) (sym (sent-++ refreshed x.1)) (
            All-append _ (sent refreshed) (sent x.1)
              (subst (All _)
                (sym (silent refreshed (refresh-Emits (λ b. ⊥) r has_tx s i.refreshed_at))) tt)
              numbered),
        reaches,
      )

  rounds-Reaches :
      (peer_addr : SocketAddr) (n : ℕ) (o : Outcome) (is : List Round)
      → Reaches n o
      → Reaches (reached n is) (rounds hash r has_tx peer_addr o is).0
  unfolding rounds
  rounds-Reaches peer_addr n (running s) [] h = h
  rounds-Reaches peer_addr n (running s) (i ∷ is) h =
      rounds-Reaches peer_addr (after_event n i.event) (round hash r has_tx peer_addr s i).0 is (
        subst (λ k. Reaches (after_event k i.event) (round hash r has_tx peer_addr s i).0) h
          (round-Counts peer_addr s i).1)
  rounds-Reaches peer_addr n (stopped s) is h = tt
  rounds-Reaches peer_addr n (failed s e) is h = tt

  -- If the loop goes on after any rounds from the start of the node, its sequence number is the
  -- number of the sends that succeeded in them, up to the end of u64; and every datagram that
  -- any next round hands to the socket is an advertisement of the node that encodes under the
  -- number after that one, or under the last of u64.
  pub run_with_status-numbers :
      (peer_addr : SocketAddr) (startup_at tokio_now : ℕ) (is : List Round) (s : HaLoopState)
      (i : Round)
      → (run_with_status hash r has_tx peer_addr startup_at tokio_now is).0 ≡ running s
      → (s.sequence ≡ reached 0 is)
        × All
            (IsAdvertOf (saturating_add (reached 0 is) 1))
            (sent (round hash r has_tx peer_addr s i).1)
  unfolding run_with_status initialize_loop_state initial_state
  run_with_status-numbers peer_addr startup_at tokio_now is s i ran =
      let first = (initialize_loop_state r has_tx startup_at tokio_now).0 in
      let reaches : s.sequence ≡ reached 0 is =
        subst (Reaches (reached 0 is)) ran (rounds-Reaches peer_addr 0 (running first) is refl) in
      (
        reaches,
        subst
            (λ n.
              All (IsAdvertOf (saturating_add n 1)) (sent (round hash r has_tx peer_addr s i).1))
            reaches (round-Counts peer_addr s i).0,
      )
