-- ===== src/Cluster/Stable.antt =====
-- An active node and a follower that hears it, over the network of the two nodes.
use gruezi.Base.{
  true, arith, ◌<◌, none, some, ℕ, ◌≡◌, ◌≢◌, ◌⊎◌, inl, inr, sym, ap, ◌∙◌, subst, Bool, false,
  Option, All, All-append,
}
use gruezi.Base.Result.{ok}
use gruezi.Base.Word.{Bytes}
use gruezi.Net.{SocketAddr}
use gruezi.Ha.Status.{HaLoopState}
use gruezi.Cluster.{sent, Cluster, Step, step_a, step_b}
use gruezi.Cluster.Refreshed.{refreshed-hold, refreshed-standby}
use gruezi.Cluster.Knowledge.{IsOf, accepted-IsOf, IsAdvert}
use gruezi.Cluster.Emits.{AdvertIn, Emits-sent}
use gruezi.Cluster.Rounds.{All-map, network-Gives, round-Kept}
use gruezi.Cluster.Safety.{AreTexts}
use gruezi.Ha.Auth.Coverage.{tagged}
use gruezi.Ha.Decision.{has_live_active_peer, outranks}
use gruezi.Ha.Loop.{refresh_local_state}
use gruezi.Ha.Loop.Rests.{IsPassive}
use gruezi.Ha.Loop.Steady.{refresh-actions}
use gruezi.Ha.Loop.Transitions.{refresh-no_preempt}
use gruezi.Ha.Packet.{HaPacket}
use gruezi.Ha.Packet.RoundTrip.{decode-encode}
use gruezi.Ha.Receive.{PeerObservation, observe, handle_incoming_packet}
use gruezi.Ha.Receive.Accept.{handle_incoming_packet_iff}
use gruezi.Ha.Runtime.{HaRuntimeConfig, follower_deadline}
use gruezi.Ha.State.{HaState, standby, active}

module _ (hash : Bytes → ℕ) (a b : HaRuntimeConfig) where
  -- An advertisement of `b` in a state that is not active.
  abbrev pub IsQuiet : Bytes → Type 0
  IsQuiet bs = (state : HaState) × (state ≢ active) × AdvertIn hash b state bs

  -- `a` is active and did not see `b` active; `b` is not active and saw none but `a`, and no
  -- datagram in the network says that `b` is active.
  pub record IsStable (c : Cluster) : Type 0 where
    pub active_a : c.state_a.state ≡ active
    pub passive_a : IsPassive c.state_a.peer_observation
    pub rests_b : c.state_b.state ≢ active
    pub seen_by_b : IsOf a c.state_b.peer_observation
    pub network : All (λ bs. IsAdvert hash a bs ⊎ IsQuiet bs) c.network

standby-ne-active : standby ≢ active
standby-ne-active e = cc e

observed_state :
    (p : HaPacket) (seen : Option PeerObservation) (t : ℕ) (o : PeerObservation)
    → o ≡ observe seen p t
    → o.state ≡ p.state
unfolding observe
observed_state p seen t o e = ap (λ x. x.state) e

active_live :
    (r : HaRuntimeConfig) (o : PeerObservation) (now : ℕ)
    → now < follower_deadline r o.observed_at
    → o.state ≡ active
    → has_live_active_peer r (some o) now ≡ true
unfolding has_live_active_peer
active_live r o now live is_active = ground arith

module _ (hash : Bytes → ℕ) (a b : HaRuntimeConfig) (texts : AreTexts a b) where
  adverts :
      (bs : Bytes)
      → IsAdvert hash a bs ⊎ IsQuiet hash a b bs
      → IsAdvert hash b bs ⊎ IsAdvert hash a bs
  adverts bs (inl ad) = inr ad
  adverts bs (inr (state, quiet, ad)) = inl (state, ad)

  -- What `a` makes of a datagram: its own it refuses, and those of `b` do not say active.
  accepted-IsPassive :
      (payload : Bytes) (from : SocketAddr) (t : ℕ) (seen : Option PeerObservation)
      (o : PeerObservation)
      → IsAdvert hash a payload ⊎ IsQuiet hash a b payload
      → handle_incoming_packet hash a payload from t seen ≡ ok o
      → IsPassive (some o)
  accepted-IsPassive payload from t seen o (inl (state, (sequence, e))) h =
      let (p, d, acc, same) = (handle_incoming_packet_iff hash a payload from t seen o).0 h in
      let eq : tagged hash a state sequence ≡ p =
        cc (d, decode-encode (tagged hash a state sequence) payload texts.node_a texts.group_a e) in
      absurd (acc.other_node (ap (λ x. x.node_id) (sym eq)))
  accepted-IsPassive payload from t seen o (inr (state, quiet, (sequence, e))) h =
      let (p, d, acc, same) = (handle_incoming_packet_iff hash a payload from t seen o).0 h in
      let eq : tagged hash b state sequence ≡ p =
        cc (d, decode-encode (tagged hash b state sequence) payload texts.node_b texts.group_b e) in
      λ is_active. quiet (ap (λ x. x.state) eq ∙ sym (observed_state p seen t o same) ∙ is_active)

module _ (hash : Bytes → ℕ) (a b : HaRuntimeConfig) (tx_a tx_b : Bool)
    (addr_a addr_b : SocketAddr) where
  -- `b` saw a peer, which is within its deadline, and it does not outrank `a`, or it may not
  -- preempt and saw an active peer.
  pub record Heeds (s : HaLoopState) (now : ℕ) : Type 0 where
    pub peer : PeerObservation
    pub saw : s.peer_observation ≡ some peer
    pub live : now < follower_deadline b peer.observed_at
    pub defers :
        (outranks b.priority b.node_id a.priority a.node_id ≡ false)
        ⊎ ((b.preempt ≡ false) × (peer.state ≡ active))

  -- `b` saw no peer, and its startup is not older than the deadline.
  pub record Waits (s : HaLoopState) (now : ℕ) : Type 0 where
    pub unseen : s.peer_observation ≡ none
    pub early : now < follower_deadline b s.startup_at

  -- A round of `b` begins while it waits for a peer or heeds it.
  abbrev IsTimely : {c d : Cluster} → Step hash a b tx_a tx_b addr_a addr_b c d → Type 0
  IsTimely (step_a c i s es delivers e) = Unit {0}
  IsTimely (step_b c i s es delivers e) =
      Waits c.state_b i.refreshed_at ⊎ Heeds c.state_b i.refreshed_at

  -- Steps of the cluster, all of them timely.
  pub data Timely : Cluster → Cluster → Type 0 where
    none_more : (c : Cluster) → Timely c c
    then :
        (c d e : Cluster)
        → Timely c d
        → (s : Step hash a b tx_a tx_b addr_a addr_b d e) → IsTimely s
        → Timely c e

  -- A node that is not active and waits for its peer, or heeds it, is in standby.
  follows :
      (s : HaLoopState) (now : ℕ)
      → s.state ≢ active
      → IsOf a s.peer_observation
      → Waits s now ⊎ Heeds s now
      → (refresh_local_state b tx_b s now).0.state ≡ standby
  follows s now rests of_a (inl w) = refreshed-hold b tx_b s now w.unseen rests w.early
  follows s now rests of_a (inr h) = elim h.defers [
    | inl loses ↦
        let known : IsOf a (some h.peer) = subst (IsOf a) h.saw of_a in
        refreshed-standby b tx_b s now h.peer h.saw (rw (known.0, known.1) loses) h.live (inl rests)
    | inr d ↦ refresh-no_preempt b tx_b s now d.0 (rw h.saw (active_live b h.peer now h.live d.1))
  ]

  module _ (texts : AreTexts a b) where
    Step-IsStable :
        (c d : Cluster) (s : Step hash a b tx_a tx_b addr_a addr_b c d)
        → IsTimely s
        → IsStable hash a b c
        → IsStable hash a b d
    Step-IsStable _ _ (step_a c i s es delivers e) timely k =
        let resting = refresh-actions hash a tx_a c.state_a i.refreshed_at k.active_a k.passive_a in
        let kept =
          round-Kept hash a tx_a IsPassive (IsAdvert hash a) addr_b c.state_a s i es k.passive_a
            (network-Gives hash a IsPassive _
              (λ payload from t ad seen o.
                accepted-IsPassive hash a b texts payload from t seen o ad)
              i.event c.network k.network delivers)
            (λ bs ad. ((refresh_local_state a tx_a c.state_a i.refreshed_at).0.state, ad)) e in
        record {
          active_a = kept.2 ∙ resting.0;
          passive_a = kept.0;
          rests_b = k.rests_b;
          seen_by_b = k.seen_by_b;
          network =
              All-append _ (sent es) c.network
                (All-map (λ x. inl) (sent es) (Emits-sent _ es kept.1)) k.network;
        }
    Step-IsStable _ _ (step_b c i s es delivers e) timely k =
        let followed = follows c.state_b i.refreshed_at k.rests_b k.seen_by_b timely in
        let kept =
          round-Kept hash b tx_b (IsOf a) (IsQuiet hash a b) addr_a c.state_b s i es k.seen_by_b
            (network-Gives hash b (IsOf a) _
              (λ payload from t ad seen o.
                accepted-IsOf hash b a tx_b texts.node_b texts.node_a texts.group_b texts.group_a
                  payload from t seen o (adverts hash a b texts payload ad))
              i.event c.network k.network delivers)
            (λ bs ad. (standby, standby-ne-active, subst (λ x. AdvertIn hash b x bs) followed ad))
            e in
        record {
          active_a = k.active_a;
          passive_a = k.passive_a;
          seen_by_b = kept.0;
          rests_b = λ is_active. standby-ne-active (sym (kept.2 ∙ followed) ∙ is_active);
          network =
              All-append _ (sent es) c.network
                (All-map (λ x. inr) (sent es) (Emits-sent _ es kept.1)) k.network;
        }

    -- The ids and groups of two nodes are Rust strings. The first one is active, and the second
    -- one, when the first last saw it, if ever, was not active. The second one is not active
    -- and last saw the first one, if any, and every datagram in the network is an advertisement
    -- of the first one, or one of the second one in a state that is not active. Over any rounds
    -- of both after which they go on, in any order, over a network that loses, delays, repeats
    -- and reorders these datagrams and those that they send, where at the start of each round
    -- of the second one, either it saw no peer and its startup is not older than the deadline,
    -- or the peer that it saw last is within its deadline, and the second node does not outrank
    -- the first, or it may not preempt and saw the peer active, all of this stays so: in
    -- particular, the first node stays active and the second one does not become so.
    pub Timely-IsStable : (c d : Cluster) → Timely c d → IsStable hash a b c → IsStable hash a b d
    Timely-IsStable _ _ (none_more c) k = k
    Timely-IsStable _ _ (then c d e before s timely) k =
        Step-IsStable d e s timely (Timely-IsStable c d before k)
