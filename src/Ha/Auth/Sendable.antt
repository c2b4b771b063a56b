-- ===== src/Ha/Auth/Sendable.antt =====
-- When a node can build and encode its advertisement, in src/gruezi/ha.rs.
use gruezi.Base.{ℕ, ◌≤◌, ◌≡◌, ◌↔◌, sym, subst, length, arith}
use gruezi.Base.Result.{ok, ◌>>=◌, >>=-eq-ok}
use gruezi.Base.Word.{Bytes, IsU32}
use gruezi.Ha.Auth.{auth_tag, build_packet}
use gruezi.Ha.Auth.Coverage.{advert, tagged, build_packet_inv}
use gruezi.Ha.Packet.{HaPacket, encode, wire}
use gruezi.Ha.Packet.Encode.{IsId, IsEncodable, encode_ok, encode_inv}
use gruezi.Ha.Runtime.{HaAuth, none_auth, shared, HaRuntimeConfig}
use gruezi.Ha.State.{HaState}

module _ (hash : Bytes → ℕ) where
  tag_short : (a : HaAuth) (p : HaPacket) → length (auth_tag hash a p) ≤ 64
  unfolding auth_tag
  tag_short none_auth p = omega arith
  tag_short (shared k) p = omega arith

  module _ (r : HaRuntimeConfig) (state : HaState) (sequence : ℕ) where
    built :
        IsU32 r.advert_interval_ms
        → build_packet hash r state sequence ≡ ok (tagged hash r state sequence)
    unfolding build_packet
    built short = ground arith

    sent_ok :
        IsU32 r.advert_interval_ms
        → IsId r.node_id
        → IsId r.group_id
        → (build_packet hash r state sequence >>= encode) ≡ ok (wire (tagged hash r state sequence))
    sent_ok short n g = rw (built short) (
        encode_ok (tagged hash r state sequence) (record {
          node_id = n;
          group_id = g;
          auth_tag = tag_short r.auth (advert r state sequence);
        }))

    -- A node can build and encode an advertisement, in any state and under any number, exactly
    -- if its interval is a u32 and its node id and group are not blank and have at most 64
    -- bytes each.
    pub build_packet-encode_iff :
        ((bs : Bytes) × ((build_packet hash r state sequence >>= encode) ≡ ok bs))
        ↔ (IsU32 r.advert_interval_ms × IsId r.node_id × IsId r.group_id)
    build_packet-encode_iff = (
      λ h.
          let (p, made, encoded) = >>=-eq-ok (build_packet hash r state sequence) encode h.1 in
          let (short, same) = build_packet_inv hash r state sequence p made in
          let v : IsEncodable (tagged hash r state sequence) =
            subst IsEncodable (sym same) (encode_inv p encoded).0 in
          (short, v.node_id, v.group_id),
      λ h. (wire (tagged hash r state sequence), sent_ok h.0 h.1 h.2),
    )
