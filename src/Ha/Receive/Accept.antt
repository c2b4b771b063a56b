-- ===== src/Ha/Receive/Accept.antt =====
-- Which datagrams `handle_incoming_packet` accepts, and what it keeps of them.
use gruezi.Base.{ℕ, ◌≡◌, ◌≢◌, ◌↔◌, refl, sym, ap, ◌∙◌, true, Option, none, some, arith}
use gruezi.Base.Result.{ok, err, >>=-eq-ok}
use gruezi.Base.Word.{Bytes}
use gruezi.Net.{SocketAddr}
use gruezi.Text.{IsText, text_eq_iff}
use gruezi.Ha.Auth.{verify_auth_tag, build_packet}
use gruezi.Ha.Auth.Coverage.{tagged, build_packet_inv, verify-tagged}
use gruezi.Ha.Error.{duplicate_node_id}
use gruezi.Ha.Packet.{HaPacket, encode}
use gruezi.Ha.Packet.Decode.{decode}
use gruezi.Ha.Packet.RoundTrip.{decode-encode}
use gruezi.Ha.Receive.{PeerObservation, observe, check_packet, handle_incoming_packet}
use gruezi.Ha.Runtime.{HaRuntimeConfig}
use gruezi.Ha.State.{HaState, active}

-- The observation of a packet is marked as one in which the peer became active exactly if the
-- packet is active and the last observation was of the same node, in another state.
pub observe-became_active_iff :
    (seen : Option PeerObservation) (p : HaPacket) (t : ℕ)
    → ((observe seen p t).became_active ≡ true) ↔ (
        (p.state ≡ active)
        × ((o : PeerObservation) × (seen ≡ some o) × (o.node_id ≡ p.node_id) × (o.state ≢ active)))
unfolding observe
observe-became_active_iff none p t = (λ h. ground arith, λ h. absurd (cc (h.1.1)))
observe-became_active_iff (some o) p t = (
  λ h.
      (ground arith, (o, refl, ground (arith, text_eq_iff o.node_id p.node_id), λ e. ground arith)),
  λ h. ground (arith, text_eq_iff o.node_id p.node_id),
)

module _ (hash : Bytes → ℕ) (r : HaRuntimeConfig) where
  -- A packet of a peer in the same group, with the right tag.
  pub record Accepts (p : HaPacket) : Type 0 where
    pub version : p.protocol_version ≡ r.protocol_version
    pub group_id : p.group_id ≡ r.group_id
    pub other_node : p.node_id ≢ r.node_id
    pub verified : verify_auth_tag hash r p ≡ true

  check_packet_iff :
      (p : HaPacket) (from : SocketAddr) → (check_packet hash r p from ≡ ok tt) ↔ Accepts p
  unfolding check_packet
  check_packet_iff p from = (
    λ h. ground (arith, text_eq_iff p.group_id r.group_id, text_eq_iff p.node_id r.node_id),
    λ a.
        ground
          (arith, text_eq_iff p.group_id r.group_id, text_eq_iff p.node_id r.node_id, a.verified),
  )

  -- A datagram is accepted with an observation exactly if it decodes to a packet of the node's
  -- protocol version and group, of another node id, and with the tag that the node's key gives,
  -- and the observation is the one of that packet.
  pub handle_incoming_packet_iff :
      (payload : Bytes) (from : SocketAddr) (t : ℕ) (seen : Option PeerObservation)
      (o : PeerObservation)
      → (handle_incoming_packet hash r payload from t seen ≡ ok o)
        ↔ ((p : HaPacket) × (decode payload ≡ ok p) × Accepts p × (o ≡ observe seen p t))
  unfolding handle_incoming_packet
  handle_incoming_packet_iff payload from t seen o = (
    λ h.
        let (p, decoded, more) = >>=-eq-ok (decode payload) _ h in
        let (u, checked, done) = >>=-eq-ok (check_packet hash r p from) _ more in
        (p, decoded, (check_packet_iff p from).0 (checked ∙ ap ok (unit u)), cc done),
    λ h. rw (h.1, (check_packet_iff h.0 from).1 h.2) (ap ok (sym h.3)),
  )
    where
      unit : (u : Unit {0}) → u ≡ tt
      unit tt = refl

  -- A datagram that decodes to a packet of the node's version and group with the node's own id
  -- is refused as a duplicate, whatever its tag is.
  pub handle_incoming_packet-duplicate :
      (payload : Bytes) (from : SocketAddr) (t : ℕ) (seen : Option PeerObservation) (p : HaPacket)
      → decode payload ≡ ok p
      → p.protocol_version ≡ r.protocol_version
      → p.group_id ≡ r.group_id
      → p.node_id ≡ r.node_id
      → handle_incoming_packet hash r payload from t seen ≡ err duplicate_node_id
  unfolding handle_incoming_packet
  handle_incoming_packet-duplicate payload from t seen p d v g n =
      rw d (ground (arith, text_eq_iff p.group_id r.group_id, text_eq_iff p.node_id r.node_id))

module _ (hash : Bytes → ℕ) (r s : HaRuntimeConfig) where
  -- `s` is set up as a peer of `r`: the same version, group and key, and another node id.
  pub record IsPeer : Type 0 where
    pub version : r.protocol_version ≡ s.protocol_version
    pub group_id : r.group_id ≡ s.group_id
    pub auth : s.auth ≡ r.auth
    pub other_node : r.node_id ≢ s.node_id
    pub node_text : IsText r.node_id
    pub group_text : IsText r.group_id

  -- Every advertisement that `r` encodes, under any number.
  pub encoded_delivered :
      (state : HaState) (sequence : ℕ) (bs : Bytes) (from : SocketAddr) (t : ℕ)
      (seen : Option PeerObservation)
      → IsPeer
      → encode (tagged hash r state sequence) ≡ ok bs
      → (o : PeerObservation) × (handle_incoming_packet hash s bs from t seen ≡ ok o)
        × (o.node_id ≡ r.node_id)
        × (o.state ≡ state)
        × (o.priority ≡ r.priority)
        × (o.observed_at ≡ t)
  encoded_delivered state sequence bs from t seen peer sent = (
    observe seen (tagged hash r state sequence) t,
    (handle_incoming_packet_iff hash s bs from t seen _).1 (
      tagged hash r state sequence,
      decode-encode (tagged hash r state sequence) bs peer.node_text peer.group_text sent,
      record {
        version = peer.version;
        group_id = peer.group_id;
        other_node = peer.other_node;
        verified = verify-tagged hash r s state sequence peer.auth;
      },
      refl,
    ),
    unfold observe in refl,
    unfold observe in refl,
    unfold observe in refl,
    unfold observe in refl,
  )

  -- Node `s` has the version, group and key of node `r`, and another node id; the ids of `r`
  -- are Rust strings. Then every advertisement that `r` builds and encodes is accepted by `s`,
  -- and `s` remembers the node id, the state and the priority of `r` with the time at which it
  -- received it.
  pub advertisement_delivered :
      (state : HaState) (sequence : ℕ) (p : HaPacket) (bs : Bytes) (from : SocketAddr) (t : ℕ)
      (seen : Option PeerObservation)
      → IsPeer
      → build_packet hash r state sequence ≡ ok p
      → encode p ≡ ok bs
      → (o : PeerObservation) × (handle_incoming_packet hash s bs from t seen ≡ ok o)
        × (o.node_id ≡ r.node_id)
        × (o.state ≡ state)
        × (o.priority ≡ r.priority)
        × (o.observed_at ≡ t)
  advertisement_delivered state sequence p bs from t seen peer built sent =
      encoded_delivered state sequence bs from t seen peer
        (ap encode (build_packet_inv hash r state sequence p built).1 ∙ sent)
