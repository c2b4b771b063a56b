-- ===== src/Ha/Packet/Encode.antt =====
-- When `encode` succeeds, and the size of what it writes.
use gruezi.Base.{◌+◌, ◌≤◌, ◌≡◌, false, ◌∷◌, ◌++◌, arith, length, length-append}
use gruezi.Base.Result.{ok}
use gruezi.Base.Word.{Bytes, be16}
use gruezi.Text.{Text, is_blank, len, as_bytes}
use gruezi.Ha.Error.{Field, node_id_field, group_id_field}
use gruezi.Ha.Packet.{HaPacket, encode, wire, validate_packet_field}

-- An identifier that the wire format can carry.
pub record IsId (s : Text) : Type 0 where
  pub not_blank : is_blank s ≡ false
  pub short : len s ≤ 64

pub record IsEncodable (p : HaPacket) : Type 0 where
  pub node_id : IsId p.node_id
  pub group_id : IsId p.group_id
  pub auth_tag : length p.auth_tag ≤ 64

pub validate_packet_field-ok :
    (s : Text) (f : Field) → IsId s → validate_packet_field s f 64 ≡ ok tt
unfolding validate_packet_field
validate_packet_field-ok s f v = ground arith

pub validate_packet_field_inv :
    (s : Text) (f : Field) → validate_packet_field s f 64 ≡ ok tt → IsId s
unfolding validate_packet_field
validate_packet_field_inv s f h = ground arith

-- `encode` writes every encodable packet.
pub encode_ok : (p : HaPacket) → IsEncodable p → encode p ≡ ok (wire p)
unfolding encode
encode_ok p v =
    rw
      (
        validate_packet_field-ok p.node_id node_id_field v.node_id,
        validate_packet_field-ok p.group_id group_id_field v.group_id,
      )
      (ground (arith, v.node_id.short, v.group_id.short))

-- It writes no other, and only that.
pub encode_inv : (p : HaPacket) {bs : Bytes} → encode p ≡ ok bs → IsEncodable p × (bs ≡ wire p)
unfolding encode
encode_inv p h = ground arith

pub length-wire :
    (p : HaPacket) → length (wire p) ≡ 24 + len p.node_id + len p.group_id + length p.auth_tag
unfolding wire len
length-wire p = omega (
  arith,
  length-append (as_bytes p.node_id)
      (len p.group_id ∷ (as_bytes p.group_id ++ (be16 (length p.auth_tag) ++ p.auth_tag))),
  length-append (as_bytes p.group_id) (be16 (length p.auth_tag) ++ p.auth_tag),
)

-- A packet with ids of at most 64 bytes that are not blank and a tag of at most 64 bytes takes
-- at most 216 bytes, so the receive buffer of 1024 bytes holds it.
pub length-wire-le : (p : HaPacket) → IsEncodable p → length (wire p) ≤ 216
length-wire-le p v = omega (arith, length-wire p)
