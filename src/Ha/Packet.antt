-- ===== src/Ha/Packet.antt =====
-- `HaPacket` of src/gruezi/ha.rs and `encode`; the cursor is in Ha/Cursor, `decode` in Decode.
pub mod Decode
pub mod Encode
pub mod RoundTrip
pub mod Canonical
use gruezi.Base.{ℕ, Option, List, [], ◌∷◌, ◌++◌, ltb, length}
use gruezi.Base.Result.{Result, ok, ◌>>=◌, ◌>>◌, bail_if}
use gruezi.Base.Word.{Bytes, be16, be32, be64}
use gruezi.Text.{Text, as_bytes, is_blank, len}
use gruezi.Ha.State.{HaState, as_u8}
use gruezi.Ha.Error.{
  Error, Field, node_id_field, group_id_field, empty_field, long_field, long_auth_tag,
}

pub record HaPacket : Type 0 where
  pub protocol_version : ℕ
  pub state : HaState
  pub priority : ℕ
  pub dead_factor : ℕ
  pub advert_interval_ms : ℕ
  pub sequence : ℕ
  pub node_id : Text
  pub group_id : Text
  pub auth_tag : Bytes

-- `PACKET_MAGIC`, b"GRHZ"
abbrev pub packet_magic : Bytes
packet_magic = b'G' ∷ b'R' ∷ b'H' ∷ b'Z' ∷ []

abbrev pub max_id_len : ℕ
max_id_len = 64

abbrev pub max_auth_tag_len : ℕ
max_auth_tag_len = 64

-- `validate_packet_field`
unfoldable pub validate_packet_field : Text → Field → ℕ → Result Error (Unit {0})
validate_packet_field value field max_len = do
  bail_if (is_blank value) (empty_field field)
  bail_if (ltb max_len (len value)) (long_field field max_len)

-- The bytes of a packet, with the lengths of its fields as they are cast.
unfoldable pub wire : HaPacket → Bytes
unfolding len
wire p =
    packet_magic
    ++ (p.protocol_version
        ∷ as_u8 p.state
        ∷ p.priority
        ∷ p.dead_factor
        ∷ (be32 p.advert_interval_ms
            ++ (be64 p.sequence
                ++ (len p.node_id
                    ∷ (as_bytes p.node_id
                        ++ (len p.group_id
                            ∷ (as_bytes p.group_id
                                ++ (be16 (length p.auth_tag) ++ p.auth_tag))))))))

-- `HaPacket::encode`. The casts of the lengths to u8 and u16 are checked a second time.
unfoldable pub encode : HaPacket → Result Error Bytes
unfolding validate_packet_field wire
encode p = do
  validate_packet_field p.node_id node_id_field max_id_len
  validate_packet_field p.group_id group_id_field max_id_len
  bail_if (ltb max_auth_tag_len (length p.auth_tag)) (long_auth_tag max_auth_tag_len)
  bail_if (ltb 255 (len p.node_id)) (long_field node_id_field 255)
  bail_if (ltb 255 (len p.group_id)) (long_field group_id_field 255)
  bail_if (ltb 65535 (length p.auth_tag)) (long_auth_tag 65535)
  ok (wire p)
