-- ===== src/Cluster/Knowledge.antt =====
-- What a node of the cluster knows of its peer, and what it sends, over one round.
use gruezi.Base.{ℕ, ◌≡◌, ◌⊎◌, inl, inr, sym, ap, ◌∙◌, Bool, Option, none, some, List, All}
use gruezi.Base.Result.{ok}
use gruezi.Base.Word.{Bytes}
use gruezi.Net.{SocketAddr}
use gruezi.Text.{IsText}
use gruezi.Cluster.{Delivers}
use gruezi.Cluster.Emits.{AdvertIn, Emits}
use gruezi.Cluster.Rounds.{network-Gives, round-Kept}
use gruezi.Ha.Auth.Coverage.{tagged}
use gruezi.Ha.Loop.{Effect, refresh_local_state}
use gruezi.Ha.Loop.Run.{Round, running, round}
use gruezi.Ha.Packet.{HaPacket}
use gruezi.Ha.Packet.RoundTrip.{decode-encode}
use gruezi.Ha.Receive.{PeerObservation, observe, handle_incoming_packet}
use gruezi.Ha.Receive.Accept.{handle_incoming_packet_iff}
use gruezi.Ha.Runtime.{HaRuntimeConfig}
use gruezi.Ha.State.{HaState}
use gruezi.Ha.Status.{HaLoopState}

-- An observation of `q`, or none.
abbrev pub IsOf : HaRuntimeConfig → Option PeerObservation → Type 0
IsOf q none = Unit {0}
IsOf q (some o) = (o.node_id ≡ q.node_id) × (o.priority ≡ q.priority)

-- What a node hands to its socket: an advertisement of its own, in some state.
abbrev pub IsAdvert : (Bytes → ℕ) → HaRuntimeConfig → Bytes → Type 0
IsAdvert hash r bs = (state : HaState) × AdvertIn hash r state bs

observed_id :
    (p : HaPacket) (seen : Option PeerObservation) (t : ℕ) (o : PeerObservation)
    → o ≡ observe seen p t
    → o.node_id ≡ p.node_id
unfolding observe
observed_id p seen t o e = ap (λ x. x.node_id) e

observed_priority :
    (p : HaPacket) (seen : Option PeerObservation) (t : ℕ) (o : PeerObservation)
    → o ≡ observe seen p t
    → o.priority ≡ p.priority
unfolding observe
observed_priority p seen t o e = ap (λ x. x.priority) e

module _ (hash : Bytes → ℕ) (r q : HaRuntimeConfig) (has_tx : Bool) (node_r : IsText r.node_id)
    (node_q : IsText q.node_id) (group_r : IsText r.group_id) (group_q : IsText q.group_id) where
  -- What an accepted advertisement tells: it is the peer's, as the node refuses its own.
  pub accepted-IsOf :
      (payload : Bytes) (from : SocketAddr) (t : ℕ) (seen : Option PeerObservation)
      (o : PeerObservation)
      → IsAdvert hash r payload ⊎ IsAdvert hash q payload
      → handle_incoming_packet hash r payload from t seen ≡ ok o
      → IsOf q (some o)
  accepted-IsOf payload from t seen o (inl (state, (sequence, e))) h =
      let (p, d, acc, same) = (handle_incoming_packet_iff hash r payload from t seen o).0 h in
      let eq : tagged hash r state sequence ≡ p =
        cc (d, decode-encode (tagged hash r state sequence) payload node_r group_r e) in
      absurd (acc.other_node (ap (λ x. x.node_id) (sym eq)))
  accepted-IsOf payload from t seen o (inr (state, (sequence, e))) h =
      let (p, d, acc, same) = (handle_incoming_packet_iff hash r payload from t seen o).0 h in
      let eq : tagged hash q state sequence ≡ p =
        cc (d, decode-encode (tagged hash q state sequence) payload node_q group_q e) in
      (
        observed_id p seen t o same ∙ ap (λ x. x.node_id) (sym eq),
        observed_priority p seen t o same ∙ ap (λ x. x.priority) (sym eq),
      )

  -- Over one round: what it knows is of the peer, and what it sends are its advertisements.
  pub round-Good :
      (peer_addr : SocketAddr) (s s' : HaLoopState) (i : Round) (es : List Effect)
      (network : List Bytes)
      → All (λ bs. IsAdvert hash r bs ⊎ IsAdvert hash q bs) network
      → Delivers network i.event
      → IsOf q s.peer_observation
      → round hash r has_tx peer_addr s i ≡ (running s', es)
      → IsOf q s'.peer_observation × All (Emits (IsAdvert hash r)) es
  round-Good peer_addr s s' i es network all d k e =
      let kept =
        round-Kept hash r has_tx (IsOf q) (IsAdvert hash r) peer_addr s s' i es k
          (network-Gives hash r (IsOf q) _
            (λ payload from t ad seen o. accepted-IsOf payload from t seen o ad) i.event network all
            d)
          (λ bs ad. ((refresh_local_state r has_tx s i.refreshed_at).0.state, ad)) e in
      (kept.0, kept.1)
