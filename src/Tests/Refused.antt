-- ===== src/Tests/Refused.antt =====
-- The theorems on what is refused and what can be sent, applied to nodes of two groups.
use gruezi.Base.{◌↔◌, ◌≡◌, refl, true, none, arith}
use gruezi.Base.Result.{ok, err, ◌>>=◌}
use gruezi.Text.{codes, contains, is_blank, IsText}
use gruezi.Base.Word.{Bytes, IsU32}
use gruezi.Ha.Auth.{auth_tag, build_packet}
use gruezi.Ha.Auth.Sendable.{build_packet-encode_iff}
use gruezi.Ha.Packet.Encode.{IsId}
use gruezi.Ha.Auth.Coverage.{tagged}
use gruezi.Ha.Error.{Error, wrong_group, is_auth_failure}
use gruezi.Ha.Packet.{HaPacket, encode, wire}
use gruezi.Ha.Packet.Decode.{decode}
use gruezi.Ha.Packet.RoundTrip.{decode-encode}
use gruezi.Ha.Receive.{handle_incoming_packet}
use gruezi.Ha.Receive.Misread.{handle_incoming_packet-auth_failure}
use gruezi.Ha.Runtime.{HaRuntimeConfig}
use gruezi.Ha.State.{standby}
use gruezi.Tests.{hash, node_a, node_b, peer_addr, IsText-b}

-- A node whose group has a telling name.
abbrev stranger : HaRuntimeConfig
stranger = record node_b { group_id = codes "authentication failed" }

abbrev packet_s : HaPacket
packet_s = tagged hash stranger standby 1

IsText-stranger : IsText stranger.group_id
IsText-stranger = ground arith

packet_s_encoded : encode packet_s ≡ ok (wire packet_s)
unfolding encode is_blank auth_tag
packet_s_encoded = refl

packet_s_decoded : decode (wire packet_s) ≡ ok packet_s
packet_s_decoded = decode-encode packet_s (wire packet_s) IsText-b IsText-stranger packet_s_encoded

stranger_named : contains stranger.group_id (codes "authentication failed") ≡ true
unfolding contains
stranger_named = refl

handle_incoming_packet-auth_failure_example :
    (e : Error) × (handle_incoming_packet hash node_a (wire packet_s) peer_addr 7 none ≡ err e)
    × (e ≡ wrong_group stranger.group_id)
    × (is_auth_failure e ≡ true)
handle_incoming_packet-auth_failure_example =
    handle_incoming_packet-auth_failure hash node_a (wire packet_s) peer_addr 7 none packet_s
      packet_s_decoded refl (λ e. ground arith) stranger_named

build_packet-encode_iff_example :
    ((bs : Bytes) × ((build_packet hash node_a standby 1 >>= encode) ≡ ok bs))
    ↔ (IsU32 1_000 × IsId (codes "a") × IsId (codes "g"))
build_packet-encode_iff_example = build_packet-encode_iff hash node_a standby 1
