-- ===== src/Ha/Packet/Decode.antt =====
-- `HaPacket::decode` of src/gruezi/ha.rs.
use gruezi.Base.{not, ltb, length}
use gruezi.Base.Result.{Result, bail_if, ok_or}
use gruezi.Base.Word.{Bytes}
use gruezi.Text.{text_eq}
use gruezi.Ha.Cursor.{
  M, ◌>>=◌, ◌>>◌, lift, pure, value, new, read_exact, read_u8, read_u16, read_u32, read_u64,
  read_string, read_vec, is_at_end,
}
use gruezi.Ha.State.{try_from_u8}
use gruezi.Ha.Error.{
  Error, node_id_field, group_id_field, long_auth_tag, invalid_magic, trailing_bytes, invalid_state,
}
use gruezi.Ha.Packet.{HaPacket, packet_magic, max_id_len, max_auth_tag_len, validate_packet_field}

-- `HaPacket::decode`, on the cursor
unfoldable pub decode_with : M HaPacket
unfolding validate_packet_field
decode_with = do
  magic ← read_exact (length packet_magic)
  lift (bail_if (not (text_eq magic packet_magic)) invalid_magic)
  protocol_version ← read_u8
  state_byte ← read_u8
  state ← lift (ok_or (try_from_u8 state_byte) (invalid_state state_byte))
  priority ← read_u8
  dead_factor ← read_u8
  advert_interval_ms ← read_u32
  sequence ← read_u64
  node_id_len ← read_u8
  node_id ← read_string node_id_len
  group_id_len ← read_u8
  group_id ← read_string group_id_len
  auth_tag_len ← read_u16
  auth_tag ← read_vec auth_tag_len
  at_end ← is_at_end
  lift (bail_if (not at_end) trailing_bytes)
  lift (validate_packet_field node_id node_id_field max_id_len)
  lift (validate_packet_field group_id group_id_field max_id_len)
  lift (bail_if (ltb max_auth_tag_len (length auth_tag)) (long_auth_tag max_auth_tag_len))
  pure (record {
    protocol_version = protocol_version;
    state = state;
    priority = priority;
    dead_factor = dead_factor;
    advert_interval_ms = advert_interval_ms;
    sequence = sequence;
    node_id = node_id;
    group_id = group_id;
    auth_tag = auth_tag;
  })

-- `HaPacket::decode`
unfoldable pub decode : Bytes → Result Error HaPacket
unfolding decode_with
decode bytes = value (decode_with (new bytes))
