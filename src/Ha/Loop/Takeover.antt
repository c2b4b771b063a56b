-- ===== src/Ha/Loop/Takeover.antt =====
-- A node whose peer is gone takes over in the loop of src/gruezi/ha.rs.
use gruezi.Base.{
  ℕ, ◌≤◌, ◌≡◌, refl, sym, ap, ◌∙◌, subst, Bool, true, Option, none, some, List, [], ◌∷◌, Bool-cases,
  inl, inr, length, leb, take, All,
}
use gruezi.Base.Result.{Result, ok, err}
use gruezi.Base.Word.{Bytes}
use gruezi.Net.{SocketAddr}
use gruezi.Ha.Decision.{HaDecision, desired_state}
use gruezi.Ha.Decision.Failover.{desired_state-active_iff}
use gruezi.Ha.Error.{Error}
use gruezi.Ha.Loop.{Effect, refresh_local_state, decision_of, decided}
use gruezi.Ha.Loop.Run.{
  Event, shutdown, receive, timer, Round, Outcome, running, or_cleanup, handle, round, rounds,
}
use gruezi.Ha.Loop.Transitions.{replay, decided-state, refresh-seen}
use gruezi.Ha.Loop.Vip.{rounds-replay, final_state}
use gruezi.Ha.Receive.{PeerObservation, handle_incoming_packet}
use gruezi.Ha.Runtime.{HaRuntimeConfig, follower_deadline}
use gruezi.Ha.State.{HaState, active, state_eq}
use gruezi.Ha.Status.{HaLoopState}
use gruezi.Ha.Loop.Keeps.{
  IsSendable, IsTransient, Keeps, receive-Keeps, receive_error-Keeps, send-Keeps,
}

module _ (hash : Bytes → ℕ) (r : HaRuntimeConfig) (has_tx : Bool) where
  -- Nothing that `seen` would give way to: the timer, a datagram that is refused, or an I/O error
  -- that passes.
  abbrev pub Ignored : Option PeerObservation → Event → Type 0
  Ignored seen (shutdown now) = ⊥
  Ignored seen (receive (ok (n, from)) buffer now cleanup_at) =
      (leb n (length buffer) ≡ true)
      × ((e : Error) × (handle_incoming_packet hash r (take n buffer) from now seen ≡ err e))
  Ignored seen (receive (err k) buffer now cleanup_at) = IsTransient (some k)
  Ignored seen (timer sent tokio_now now cleanup_at) = IsTransient sent

  -- The loop goes on, in a state with the same observation.
  unfoldable pub Goes : HaLoopState → Outcome → Type 0
  Goes s o =
      (s' : HaLoopState) × (o ≡ running s')
      × (s'.state ≡ s.state)
      × (s'.peer_observation ≡ s.peer_observation)
      × (s'.startup_at ≡ s.startup_at)

  or_cleanup-Goes :
      (peer_addr : SocketAddr) (s : HaLoopState) (now : ℕ)
      (res : Result Error (HaLoopState × List Effect))
      → Keeps s res
      → Goes s (or_cleanup hash r has_tx peer_addr s now res).0
  unfolding Keeps Goes or_cleanup
  or_cleanup-Goes peer_addr s now res (s', es, e, state, seen, startup) =
      rw e (s', refl, state, seen, startup)

  pub handle-Goes :
      (peer_addr : SocketAddr) (s : HaLoopState) (e : Event)
      → IsSendable r
      → Ignored s.peer_observation e
      → Goes s (handle hash r has_tx peer_addr s e).0
  unfolding handle
  handle-Goes peer_addr s (shutdown now) sendable i = absurd i
  handle-Goes peer_addr s (receive (ok (n, from)) buffer now cleanup_at) sendable
        (le, (e, refused)) =
      or_cleanup-Goes peer_addr s cleanup_at _
        (receive-Keeps hash r has_tx s n from buffer now e le refused)
  handle-Goes peer_addr s (receive (err k) buffer now cleanup_at) sendable t =
      or_cleanup-Goes peer_addr s cleanup_at _ (receive_error-Keeps hash r has_tx s k buffer now t)
  handle-Goes peer_addr s (timer sent tokio_now now cleanup_at) sendable t =
      or_cleanup-Goes peer_addr s cleanup_at _
        (send-Keeps hash r has_tx peer_addr s sent tokio_now now sendable t)

-- The peer's deadline has passed; where no peer was ever seen, that of the startup.
abbrev pub IsGone : HaRuntimeConfig → Option PeerObservation → ℕ → ℕ → Type 0
IsGone r none startup_at now = follower_deadline r startup_at ≤ now
IsGone r (some o) startup_at now = follower_deadline r o.observed_at ≤ now

gone-active :
    (r : HaRuntimeConfig) (current : HaState) (seen : Option PeerObservation) (startup_at now : ℕ)
    (conflict : Bool)
    → IsGone r seen startup_at now
    → (desired_state r current seen startup_at now conflict).state ≡ active
gone-active r current none startup_at now conflict g =
    (desired_state-active_iff r current none startup_at now conflict).1 (inr g)
gone-active r current (some o) startup_at now conflict g =
    (desired_state-active_iff r current (some o) startup_at now conflict).1 (inl g)

decided-startup :
    (r : HaRuntimeConfig) (s : HaLoopState) (d : HaDecision) (now : ℕ)
    → (decided r s d now).startup_at ≡ s.startup_at
unfolding decided
decided-startup r s d now = elim (Bool-cases (state_eq s.state d.state)) [
  | inl e ↦ rw e refl
  | inr e ↦ rw e refl
]

pub refresh-startup :
    (r : HaRuntimeConfig) (has_tx : Bool) (s : HaLoopState) (now : ℕ)
    → (refresh_local_state r has_tx s now).0.startup_at ≡ s.startup_at
unfolding refresh_local_state
refresh-startup r has_tx s now = decided-startup r s (decision_of r s now) now

refresh-active :
    (r : HaRuntimeConfig) (has_tx : Bool) (s : HaLoopState) (now : ℕ)
    → IsGone r s.peer_observation s.startup_at now
    → let s' = (refresh_local_state r has_tx s now).0 in
      (s'.state ≡ active) × (s'.startup_at ≡ s.startup_at)
unfolding refresh_local_state decision_of
refresh-active r has_tx s now g = (
  decided-state r s (decision_of r s now) now
      ∙ gone-active r s.state s.peer_observation s.startup_at now s.active_peer_conflict g,
  decided-startup r s (decision_of r s now) now,
)

module _ (hash : Bytes → ℕ) (r : HaRuntimeConfig) (has_tx : Bool) (peer_addr : SocketAddr)
    (seen : Option PeerObservation) (startup_at : ℕ) where
  -- A round after the deadline, in which nothing of the peer is accepted.
  abbrev pub IsQuiet : Round → Type 0
  IsQuiet i = IsGone r seen startup_at i.refreshed_at × Ignored hash r has_tx seen i.event

  -- The loop goes on, active.
  abbrev pub Leads : Outcome → Type 0
  Leads o =
      (s : HaLoopState) × (o ≡ running s)
      × (s.state ≡ active)
      × (s.peer_observation ≡ seen)
      × (s.startup_at ≡ startup_at)

  pub round-Leads :
      (s : HaLoopState) (i : Round)
      → IsSendable r
      → s.peer_observation ≡ seen
      → s.startup_at ≡ startup_at
      → IsQuiet i
      → Leads (round hash r has_tx peer_addr s i).0
  unfolding round Goes
  round-Leads s i sendable same began quiet =
      let s0 = (refresh_local_state r has_tx s i.refreshed_at).0 in
      let g : IsGone r s.peer_observation s.startup_at i.refreshed_at = rw (same, began) quiet.0 in
      let (state0, startup0) = refresh-active r has_tx s i.refreshed_at g in
      let seen0 : s0.peer_observation ≡ seen = refresh-seen r has_tx s i.refreshed_at ∙ same in
      let (s', e, state, kept, startup) =
        handle-Goes hash r has_tx peer_addr s0 i.event sendable
          (subst (λ x. Ignored hash r has_tx x i.event) (sym seen0) quiet.1) in
      (s', e, state ∙ state0, kept ∙ seen0, startup ∙ startup0 ∙ began)

  pub rounds-Leads :
      (o : Outcome) (is : List Round)
      → IsSendable r
      → Leads o
      → All IsQuiet is
      → Leads (rounds hash r has_tx peer_addr o is).0
  unfolding rounds
  rounds-Leads o [] sendable (s, e, state, same, began) quiet = rw e (s, refl, state, same, began)
  rounds-Leads o (i ∷ is) sendable (s, e, state, same, began) quiet = rw e (
      rounds-Leads (round hash r has_tx peer_addr s i).0 is sendable
        (round-Leads s i sendable same began quiet.0) quiet.1)

  -- The node's interval is a u32 and its ids are not blank and have at most 64 bytes. Its loop
  -- runs one or more rounds that all begin after the deadline of the peer it last saw, or after
  -- the startup deadline if it saw none, in which every datagram fits the buffer and is
  -- refused, I/O errors are transient, and no shutdown comes. Then the loop goes on, in the
  -- active state, with what it saw of the peer unchanged, and replaying its address actions
  -- leaves the node with the addresses.
  pub rounds-takeover :
      (s : HaLoopState) (i : Round) (is : List Round)
      → IsSendable r
      → s.peer_observation ≡ seen
      → s.startup_at ≡ startup_at
      → All IsQuiet (i ∷ is)
      → let (outcome, effects) = rounds hash r has_tx peer_addr (running s) (i ∷ is) in
        Leads outcome × (replay (state_eq s.state active) effects ≡ true)
  unfolding rounds
  rounds-takeover s i is sendable same began quiet =
      let first = round-Leads s i sendable same began quiet.0 in
      let last = rounds-Leads (round hash r has_tx peer_addr s i).0 is sendable first quiet.1 in
      (
        last,
        rounds-replay hash r has_tx peer_addr (running s) (i ∷ is)
            ∙ ap (λ o. state_eq (final_state o).state active) last.1
            ∙ ap (λ x. state_eq x active) last.2,
      )
