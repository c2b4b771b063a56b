-- ===== src/Cluster/Exchange.antt =====
-- A node of src/gruezi/ha.rs that sends an advertisement, hears one, and sends again.
pub mod Sends
use gruezi.Base.{
  All-append, ℕ, ◌<◌, ◌≡◌, ◌≢◌, ◌⊎◌, refl, sym, ap, ◌∙◌, subst, Bool, true, false, none, some,
  Option, List, [], ◌∷◌, take, length, leb, All, arith,
}
use gruezi.Base.Result.{ok}
use gruezi.Base.Word.{Bytes}
use gruezi.Net.{SocketAddr}
use gruezi.Cluster.{sent}
use gruezi.Cluster.Emits.{AdvertIn, Emits, Emits-sent}
use gruezi.Cluster.Rounds.{Gives, round-Kept}
use gruezi.Cluster.Refreshed.{refreshed}
use gruezi.Ha.Decision.{desired_state, desired_state_without_live_peer, local_wins}
use gruezi.Ha.Loop.{refresh_local_state, decision_of}
use gruezi.Ha.Loop.Handlers.{handle_receive_event, after_packet}
use gruezi.Ha.Loop.Keeps.{IsSendable}
use gruezi.Ha.Loop.Run.{receive, timer, Round, Outcome, running, or_cleanup, handle, round, rounds}
use gruezi.Ha.Loop.Takeover.{Goes, handle-Goes, refresh-startup}
use gruezi.Ha.Loop.Transitions.{decided-state, refresh-seen}
use gruezi.Ha.Receive.{PeerObservation, handle_incoming_packet}
use gruezi.Ha.Runtime.{HaRuntimeConfig, follower_deadline}
use gruezi.Ha.State.{HaState, standby, active}
use gruezi.Ha.Status.{HaLoopState}

-- A round in which the timer is up and the send succeeds.
pub record Tick : Type 0 where
  pub refreshed_at : ℕ
  pub tokio_now : ℕ
  pub now : ℕ
  pub cleanup_at : ℕ

abbrev pub tick : Tick → Round
tick i = record { refreshed_at = i.refreshed_at; event = timer none i.tokio_now i.now i.cleanup_at }

-- A round in which a datagram arrives.
pub record Arrival : Type 0 where
  pub refreshed_at : ℕ
  pub size : ℕ
  pub from : SocketAddr
  pub buffer : Bytes
  pub now : ℕ
  pub cleanup_at : ℕ

abbrev pub payload : Arrival → Bytes
payload i = take i.size i.buffer

abbrev pub arrive : Arrival → Round
arrive i = record {
  refreshed_at = i.refreshed_at;
  event = receive (ok (i.size, i.from)) i.buffer i.now i.cleanup_at;
}

-- What a node meets: it sends, it hears, and it sends again.
pub record Exchange : Type 0 where
  pub sends : Tick
  pub hears : Arrival
  pub sends_again : Tick

abbrev pub exchange : Exchange → List Round
exchange x = tick x.sends ∷ arrive x.hears ∷ tick x.sends_again ∷ []

module _ (hash : Bytes → ℕ) (r : HaRuntimeConfig) (has_tx : Bool) (peer_addr : SocketAddr) where
  -- The loop goes on in a state, with an observation and the same startup.
  abbrev GoesTo : HaLoopState → HaState → Option PeerObservation → Outcome → Type 0
  GoesTo s state seen o =
      (s' : HaLoopState) × (o ≡ running s')
      × (s'.state ≡ state)
      × (s'.peer_observation ≡ seen)
      × (s'.startup_at ≡ s.startup_at)

  pub tick-GoesTo :
      (s : HaLoopState) (i : Tick)
      → IsSendable r
      → GoesTo s
          (refreshed r has_tx s i.refreshed_at)
          s.peer_observation
          (round hash r has_tx peer_addr s (tick i)).0
  unfolding round Goes
  tick-GoesTo s i sendable =
      let s0 = (refresh_local_state r has_tx s i.refreshed_at).0 in
      let (s', e, state, seen, startup) =
        handle-Goes hash r has_tx peer_addr s0 (tick i).event sendable tt in
      (
        s',
        e,
        state,
        seen ∙ refresh-seen r has_tx s i.refreshed_at,
        startup ∙ refresh-startup r has_tx s i.refreshed_at,
      )

  pub arrive-GoesTo :
      (s : HaLoopState) (i : Arrival) (o : PeerObservation)
      → leb i.size (length i.buffer) ≡ true
      → handle_incoming_packet hash r (payload i) i.from i.now s.peer_observation ≡ ok o
      → GoesTo s
          (refreshed r has_tx s i.refreshed_at)
          (some o)
          (round hash r has_tx peer_addr s (arrive i)).0
  unfolding round handle or_cleanup handle_receive_event after_packet
  arrive-GoesTo s i o fits accepted =
      rw (fits, refresh-seen r has_tx s i.refreshed_at, accepted)
        (_, refl, refl, refl, refresh-startup r has_tx s i.refreshed_at)

  -- The states between the rounds of an exchange in which the observation `o` is made.
  pub record Exchanged (s : HaLoopState) (x : Exchange) (o : PeerObservation) : Type 0 where
    pub one : HaLoopState
    pub two : HaLoopState
    pub three : HaLoopState
    pub state_one : one.state ≡ refreshed r has_tx s x.sends.refreshed_at
    pub seen_one : one.peer_observation ≡ s.peer_observation
    pub startup_one : one.startup_at ≡ s.startup_at
    pub state_two : two.state ≡ refreshed r has_tx one x.hears.refreshed_at
    pub seen_two : two.peer_observation ≡ some o
    pub state_three : three.state ≡ refreshed r has_tx two x.sends_again.refreshed_at
    pub seen_three : three.peer_observation ≡ some o
    pub ran_one : (round hash r has_tx peer_addr s (tick x.sends)).0 ≡ running one
    pub ran_two : (round hash r has_tx peer_addr one (arrive x.hears)).0 ≡ running two
    pub ran_three : (round hash r has_tx peer_addr two (tick x.sends_again)).0 ≡ running three
    pub ends : (rounds hash r has_tx peer_addr (running s) (exchange x)).0 ≡ running three

  rounds-running :
      (s s' : HaLoopState) (i : Round) (is : List Round)
      → (round hash r has_tx peer_addr s i).0 ≡ running s'
      → (rounds hash r has_tx peer_addr (running s) (i ∷ is)).0
        ≡ (rounds hash r has_tx peer_addr (running s') is).0
  unfolding rounds
  rounds-running s s' i is e = ap (λ o. (rounds hash r has_tx peer_addr o is).0) e

  pub exchanged :
      (s : HaLoopState) (x : Exchange) (o : PeerObservation)
      → IsSendable r
      → leb x.hears.size (length x.hears.buffer) ≡ true
      → handle_incoming_packet hash r (payload x.hears) x.hears.from x.hears.now s.peer_observation
        ≡ ok o
      → Exchanged s x o
  exchanged s x o sendable fits accepted =
      let (one, ran_one, state_one, seen_one, startup_one) = tick-GoesTo s x.sends sendable in
      let heard =
        subst
          (λ k. handle_incoming_packet hash r (payload x.hears) x.hears.from x.hears.now k ≡ ok o)
          (sym seen_one) accepted in
      let (two, ran_two, state_two, seen_two, startup_two) =
        arrive-GoesTo one x.hears o fits heard in
      let (three, ran_three, state_three, seen_three, startup_three) =
        tick-GoesTo two x.sends_again sendable in
      record {
        one = one;
        two = two;
        three = three;
        state_one = state_one;
        seen_one = seen_one;
        startup_one = startup_one;
        state_two = state_two;
        seen_two = seen_two;
        state_three = state_three;
        seen_three = seen_three ∙ seen_two;
        ran_one = ran_one;
        ran_two = ran_two;
        ran_three = ran_three;
        ends =
            rounds-running s one (tick x.sends) _ ran_one
            ∙ rounds-running one two (arrive x.hears) _ ran_two
            ∙ rounds-running two three (tick x.sends_again) [] ran_three
            ∙ (unfold rounds in refl);
      }
