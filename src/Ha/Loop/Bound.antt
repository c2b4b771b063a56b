-- ===== src/Ha/Loop/Bound.antt =====
-- How long a takeover takes at most in the loop of src/gruezi/ha.rs.
use gruezi.Base.{
  ℕ, ◌+◌, ◌≤◌, ◌<◌, ◌≡◌, refl, sym, ap, ◌∙◌, subst, Bool, Option, none, some, List, [], ◌∷◌, ◌++◌,
  Bool-cases, inl, inr, ltb, All, arith,
}
use gruezi.Base.Word.{Bytes}
use gruezi.Net.{SocketAddr}
use gruezi.Ha.Loop.{refresh_local_state}
use gruezi.Ha.Loop.Keeps.{IsSendable}
use gruezi.Ha.Loop.Prompt.{Due, Allows, round-Due}
use gruezi.Ha.Loop.Run.{
  Event, shutdown, receive, timer, Round, Outcome, running, stopped, failed, round, rounds,
}
use gruezi.Ha.Loop.Takeover.{
  IsGone, Ignored, Leads, round-Leads, rounds-Leads, Goes, handle-Goes, refresh-startup,
}
use gruezi.Ha.Loop.Transitions.{refresh-seen}
use gruezi.Ha.Receive.{PeerObservation}
use gruezi.Ha.Runtime.{HaRuntimeConfig, follower_deadline, advert_interval}
use gruezi.Ha.Status.{HaLoopState}

-- The deadline of the peer that was seen, or of the startup.
abbrev pub gone_at : HaRuntimeConfig → Option PeerObservation → ℕ → ℕ
gone_at r none startup_at = follower_deadline r startup_at
gone_at r (some o) startup_at = follower_deadline r o.observed_at

past_deadline :
    (r : HaRuntimeConfig) (seen : Option PeerObservation) (startup_at now : ℕ)
    → gone_at r seen startup_at ≤ now
    → IsGone r seen startup_at now
past_deadline r none startup_at now h = h
past_deadline r (some o) startup_at now h = h

module _ (hash : Bytes → ℕ) (r : HaRuntimeConfig) (has_tx : Bool) (peer_addr : SocketAddr)
    (seen : Option PeerObservation) (startup_at lag : ℕ) where
  -- The clock for the next advertisement is read soon after the round begins.
  abbrev pub IsSwift : ℕ → Event → Type 0
  IsSwift refreshed_at (shutdown now) = Unit {0}
  IsSwift refreshed_at (receive recv buffer now cleanup_at) = Unit {0}
  IsSwift refreshed_at (timer sent tokio_now now cleanup_at) = tokio_now ≤ refreshed_at + lag

  -- A round in which nothing of the peer is accepted.
  abbrev pub IsIdle : Round → Type 0
  IsIdle i = Ignored hash r has_tx seen i.event × IsSwift i.refreshed_at i.event

  -- Each round begins soon after the time for which the timer is set.
  abbrev pub Prompt : Outcome → List Round → Type 0
  Prompt (running s) (i ∷ is) =
      (i.refreshed_at ≤ s.next_advert_at + lag) × Prompt (round hash r has_tx peer_addr s i).0 is
  Prompt (running s) [] = Unit {0}
  Prompt (stopped s) is = Unit {0}
  Prompt (failed s e) is = Unit {0}

  -- When the last advertisement before the takeover is due at the latest.
  abbrev pub due : ℕ
  due = gone_at r seen startup_at + lag + advert_interval r

  -- A part of the run, up to a round that begins after the deadline, in time, and leaves the node
  -- active.
  pub record TakesOver (s : HaLoopState) (is : List Round) : Type 0 where
    pub before : List Round
    pub last : Round
    pub after : List Round
    pub splits : is ≡ before ++ last ∷ after
    pub late_enough : gone_at r seen startup_at ≤ last.refreshed_at
    pub in_time : last.refreshed_at ≤ due + lag
    pub leads :
        Leads hash r has_tx peer_addr seen startup_at
          (rounds hash r has_tx peer_addr (running s) (before ++ last ∷ [])).0

  swift-Allows :
      (refreshed_at : ℕ) (e : Event)
      → IsSwift refreshed_at e
      → refreshed_at < gone_at r seen startup_at
      → Allows hash r has_tx due e
  swift-Allows refreshed_at (shutdown now) swift early = tt
  swift-Allows refreshed_at (receive recv buffer now cleanup_at) swift early = tt
  swift-Allows refreshed_at (timer sent tokio_now now cleanup_at) swift early = omega arith

  -- The loop goes on, with what it knew.
  abbrev Waits : Outcome → Type 0
  Waits o =
      (s : HaLoopState) × (o ≡ running s)
      × (s.peer_observation ≡ seen)
      × (s.startup_at ≡ startup_at)
      × (s.next_advert_at ≤ due)

  round-Waits :
      (s : HaLoopState) (i : Round)
      → IsSendable r
      → s.peer_observation ≡ seen
      → s.startup_at ≡ startup_at
      → s.next_advert_at ≤ due
      → IsIdle i
      → i.refreshed_at < gone_at r seen startup_at
      → Waits (round hash r has_tx peer_addr s i).0
  unfolding round Goes
  round-Waits s i sendable same began next idle early =
      let s0 = (refresh_local_state r has_tx s i.refreshed_at).0 in
      let seen0 : s0.peer_observation ≡ seen = refresh-seen r has_tx s i.refreshed_at ∙ same in
      let (s', e, state, kept, startup) =
        handle-Goes hash r has_tx peer_addr s0 i.event sendable
          (subst (λ x. Ignored hash r has_tx x i.event) (sym seen0) idle.0) in
      (
        s',
        e,
        kept ∙ seen0,
        startup ∙ refresh-startup r has_tx s i.refreshed_at ∙ began,
        subst (Due hash r has_tx due) e (
            round-Due hash r has_tx due peer_addr s i next
              (swift-Allows i.refreshed_at i.event idle.1 early)),
      )

  TakesOver-cons :
      (s s' : HaLoopState) (i : Round) (is : List Round)
      → (round hash r has_tx peer_addr s i).0 ≡ running s'
      → TakesOver s' is
      → TakesOver s (i ∷ is)
  unfolding rounds
  TakesOver-cons s s' i is e t = record {
    before = i ∷ t.before;
    last = t.last;
    after = t.after;
    splits = ap (λ l. i ∷ l) t.splits;
    late_enough = t.late_enough;
    in_time = t.in_time;
    leads =
        subst
          (λ o.
            Leads hash r has_tx peer_addr seen startup_at
              (rounds hash r has_tx peer_addr o (t.before ++ t.last ∷ [])).0)
          (sym e) t.leads;
  }

  -- Nothing of the peer is accepted: over the rounds of the loop, every datagram fits the
  -- buffer and is refused, I/O errors are transient, and no shutdown comes; the interval of the
  -- node is a u32, and its ids are not blank and have at most 64 bytes. The clocks agree: each
  -- round begins at most a lag after the time for which the timer is set, and the clock for the
  -- next advertisement is read at most that lag after the round begins; at the beginning the
  -- timer is set for at most the lag and an interval after the deadline of the peer that was
  -- seen last, or of the startup if none was. If not all rounds begin before that deadline,
  -- then one of them begins at or after it, and at most two lags and one interval later, and
  -- the loop goes on after it in the active state, with what it saw of the peer unchanged.
  pub rounds-TakesOver :
      (s : HaLoopState) (is : List Round)
      → IsSendable r
      → s.peer_observation ≡ seen
      → s.startup_at ≡ startup_at
      → s.next_advert_at ≤ due
      → All IsIdle is
      → Prompt (running s) is
      → ¬ (All (λ i. i.refreshed_at < gone_at r seen startup_at) is)
      → TakesOver s is
  unfolding rounds
  rounds-TakesOver s [] sendable same began next idle prompt reaches = absurd (reaches tt)
  rounds-TakesOver s (i ∷ is) sendable same began next idle prompt reaches =
      elim (Bool-cases (ltb i.refreshed_at (gone_at r seen startup_at))) [
        | inl e ↦
            let early : i.refreshed_at < gone_at r seen startup_at = ground arith in
            let (s', ran, same', began', next') =
              round-Waits s i sendable same began next idle.0 early in
            TakesOver-cons s s' i is ran (
              rounds-TakesOver s' is sendable same' began' next' idle.1
                (subst (λ o. Prompt o is) ran prompt.1) (λ rest. reaches (early, rest)))
        | inr e ↦
            let late : gone_at r seen startup_at ≤ i.refreshed_at = ground arith in
            record {
              before = [];
              last = i;
              after = is;
              splits = refl;
              late_enough = late;
              in_time = omega (arith, prompt.0);
              leads =
                  rounds-Leads hash r has_tx peer_addr seen startup_at
                    (round hash r has_tx peer_addr s i).0 [] sendable
                    (round-Leads hash r has_tx peer_addr seen startup_at s i sendable same began
                      (past_deadline r seen startup_at i.refreshed_at late, idle.0.0))
                    tt;
            }
      ]
