-- ===== src/Cluster/Replay.antt =====
-- Datagrams that were recorded and are delivered again to the loop of src/gruezi/ha.rs.
use gruezi.Base.{
  ℕ, ◌<◌, ◌≡◌, ◌≢◌, refl, sym, ap, ◌∙◌, subst, Bool, true, false, Option, some, List, [], ◌∷◌, map,
  length, leb, All, arith,
}
use gruezi.Base.Result.{ok}
use gruezi.Base.Word.{Bytes}
use gruezi.Net.{SocketAddr}
use gruezi.Addresses.{remove}
use gruezi.Cluster.Exchange.{Arrival, payload, arrive, arrive-GoesTo}
use gruezi.Ha.Decision.{has_live_active_peer}
use gruezi.Ha.Loop.Actions.{actions}
use gruezi.Ha.Loop.Follower.{Hears, rounds-follow}
use gruezi.Ha.Loop.Run.{running, rounds}
use gruezi.Ha.Loop.Vip.{final_state}
use gruezi.Ha.Packet.{HaPacket}
use gruezi.Ha.Receive.{PeerObservation, observe, handle_incoming_packet}
use gruezi.Ha.Receive.Accept.{handle_incoming_packet_iff}
use gruezi.Ha.Runtime.{HaRuntimeConfig, follower_deadline}
use gruezi.Ha.State.{active}
use gruezi.Ha.Status.{HaLoopState}

-- The same news as `o`, at time `t`.
pub record IsAgain (o o' : PeerObservation) (t : ℕ) : Type 0 where
  pub node_id : o'.node_id ≡ o.node_id
  pub state : o'.state ≡ o.state
  pub priority : o'.priority ≡ o.priority
  pub observed_at : o'.observed_at ≡ t

again :
    (p : HaPacket) (seen seen' : Option PeerObservation) (t t' : ℕ) (o : PeerObservation)
    → o ≡ observe seen p t
    → IsAgain o (observe seen' p t') t'
unfolding observe
again p seen seen' t t' o e = record {
  node_id = ap (λ x. x.node_id) (sym e);
  state = ap (λ x. x.state) (sym e);
  priority = ap (λ x. x.priority) (sym e);
  observed_at = refl;
}

module _ (hash : Bytes → ℕ) (r : HaRuntimeConfig) where
  -- A datagram that was accepted once is accepted again.
  replayed :
      (bs : Bytes) (from from' : SocketAddr) (t t' : ℕ) (seen seen' : Option PeerObservation)
      (o : PeerObservation)
      → handle_incoming_packet hash r bs from t seen ≡ ok o
      → (o' : PeerObservation) × (handle_incoming_packet hash r bs from' t' seen' ≡ ok o')
        × IsAgain o o' t'
  replayed bs from from' t t' seen seen' o h =
      let (p, decoded, accepts, same) = (handle_incoming_packet_iff hash r bs from t seen o).0 h in
      (
        observe seen' p t',
        (handle_incoming_packet_iff hash r bs from' t' seen' (observe seen' p t')).1
            (p, decoded, accepts, refl),
        again p seen seen' t t' o same,
      )

  -- The same bytes arrive again and again, each time before the deadline since the last time.
  abbrev pub Replays : Bytes → ℕ → List Arrival → Type 0
  Replays bs last [] = Unit {0}
  Replays bs last (x ∷ xs) =
      (x.refreshed_at < follower_deadline r last)
      × (payload x ≡ bs)
      × (leb x.size (length x.buffer) ≡ true)
      × Replays bs x.now xs

  live_active :
      (o : PeerObservation) (now : ℕ)
      → now < follower_deadline r o.observed_at
      → o.state ≡ active
      → has_live_active_peer r (some o) now ≡ true
  unfolding has_live_active_peer
  live_active o now live is_active = rw is_active (ground arith)

  module _ (has_tx : Bool) (peer_addr : SocketAddr) (bs : Bytes) (from : SocketAddr) (t : ℕ)
      (seen : Option PeerObservation) (o : PeerObservation)
      (once : handle_incoming_packet hash r bs from t seen ≡ ok o)
      (was_active : o.state ≡ active) where
    replayed-Hears :
        (s : HaLoopState) (last : PeerObservation) (xs : List Arrival)
        → s.peer_observation ≡ some last
        → last.state ≡ active
        → Replays bs last.observed_at xs
        → Hears hash r has_tx peer_addr (running s) (map arrive xs)
    replayed-Hears s last [] saw is_active h = tt
    replayed-Hears s last (x ∷ xs) saw is_active (live, same, fits, more) =
        let (o', took, news) = replayed bs from x.from t x.now seen s.peer_observation o once in
        let (s', ran, state, seen', startup) = arrive-GoesTo hash r has_tx peer_addr s x o' fits (
          subst (λ k. handle_incoming_packet hash r k x.from x.now s.peer_observation ≡ ok o')
            (sym same) took) in
        (
          subst (λ k. has_live_active_peer r k x.refreshed_at ≡ true) (sym saw)
              (live_active last x.refreshed_at live is_active),
          subst (λ k. Hears hash r has_tx peer_addr k (map arrive xs)) (sym ran)
              (replayed-Hears s' o' xs seen' (news.state ∙ was_active)
                (subst (λ k. Replays bs k xs) (sym news.observed_at) more)),
        )

    -- A node may not preempt and is not active, and it last saw an active peer. It accepted
    -- some datagram once, from any sender at any time, that told of an active peer. If only
    -- those bytes arrive, again and again, each in a buffer that it fits and in a round that
    -- begins before the deadline that follows from the arrival before it, or from the last
    -- observation, then the address actions of the loop are removals only, and it is not active
    -- at the end of any number of such rounds.
    pub replayed_follows :
        (s : HaLoopState) (last : PeerObservation) (xs : List Arrival)
        → r.preempt ≡ false
        → s.state ≢ active
        → s.peer_observation ≡ some last
        → last.state ≡ active
        → Replays bs last.observed_at xs
        → let (out, es) = rounds hash r has_tx peer_addr (running s) (map arrive xs) in
          All (λ x. x ≡ remove) (actions es) × ((final_state out).state ≢ active)
    replayed_follows s last xs patient ne saw is_active h =
        rounds-follow hash r has_tx peer_addr s (map arrive xs) patient ne
          (replayed-Hears s last xs saw is_active h)
