-- ===== src/Ha/Packet/RoundTrip.antt =====
-- `decode` reads back what `encode` wrote.
use gruezi.Base.{◌≡◌, not, refl, true, false, some, [], ◌∷◌, arith, ltb, length}
use gruezi.Base.Result.{ok, ok_or, bail_if}
use gruezi.Base.Word.{Bytes, be16, be32, be64}
use gruezi.Text.{IsText, as_bytes, len, text_eq}
use gruezi.Ha.Error.{
  invalid_magic, invalid_state, trailing_bytes, long_auth_tag, node_id_field, group_id_field,
}
use gruezi.Ha.State.{HaState, init, standby, active, as_u8, try_from_u8}
use gruezi.Ha.Cursor.{new}
use gruezi.Ha.Cursor.Ends.{
  Ends, Reads-Ends, Reads-Ends_last, lift-Ends, check-Ends, at_end-Ends, pure-Ends,
}
use gruezi.Ha.Cursor.Laws.{
  read_u8-Reads, read_u16-Reads, read_u32-Reads, read_u64-Reads, read_string-Reads, read_vec-Reads,
  read_exact-Reads,
}
use gruezi.Ha.Packet.{
  HaPacket, encode, wire, packet_magic, validate_packet_field, max_id_len, max_auth_tag_len,
}
use gruezi.Ha.Packet.Encode.{encode_inv, length-wire-le, validate_packet_field-ok}
use gruezi.Ha.Packet.Decode.{decode, decode_with}

pub try_from_u8-as_u8 : (s : HaState) → try_from_u8 (as_u8 s) ≡ some s
unfolding try_from_u8 as_u8
try_from_u8-as_u8 init = refl
try_from_u8-as_u8 standby = refl
try_from_u8-as_u8 active = refl

magic_matches : text_eq packet_magic packet_magic ≡ true
unfolding text_eq
magic_matches = refl

-- Each step of the source, on the bytes that `encode` wrote.
decode_with-Ends :
    (p : HaPacket)
    → IsText p.node_id
    → IsText p.group_id
    → validate_packet_field p.node_id node_id_field max_id_len ≡ ok tt
    → validate_packet_field p.group_id group_id_field max_id_len ≡ ok tt
    → ltb max_auth_tag_len (length p.auth_tag) ≡ false
    → Ends decode_with (wire p) p
unfolding decode_with wire len
decode_with-Ends p hn hg vn vg vt = Reads-Ends _ _ packet_magic _ (read_exact-Reads packet_magic) (
    check-Ends (bail_if (not (text_eq packet_magic packet_magic)) invalid_magic) _
      (rw magic_matches refl)
      (Reads-Ends _ _ (p.protocol_version ∷ []) _ (read_u8-Reads p.protocol_version) (
        Reads-Ends _ _ (as_u8 p.state ∷ []) _ (read_u8-Reads (as_u8 p.state)) (
          lift-Ends (ok_or (try_from_u8 (as_u8 p.state)) (invalid_state (as_u8 p.state))) _ p.state
            (rw (try_from_u8-as_u8 p.state) refl)
            (Reads-Ends _ _ (p.priority ∷ []) _ (read_u8-Reads p.priority) (
              Reads-Ends _ _ (p.dead_factor ∷ []) _ (read_u8-Reads p.dead_factor) (
                Reads-Ends _ _ (be32 p.advert_interval_ms) _ (read_u32-Reads p.advert_interval_ms) (
                  Reads-Ends _ _ (be64 p.sequence) _ (read_u64-Reads p.sequence) (
                    Reads-Ends _ _ (len p.node_id ∷ []) _ (read_u8-Reads (len p.node_id)) (
                      Reads-Ends _ _ (as_bytes p.node_id) _ (read_string-Reads p.node_id hn) (
                        Reads-Ends _ _ (len p.group_id ∷ []) _ (read_u8-Reads (len p.group_id)) (
                          Reads-Ends _ _ (as_bytes p.group_id) _ (read_string-Reads p.group_id hg) (
                            Reads-Ends _ _ (be16 (length p.auth_tag)) _
                              (read_u16-Reads (length p.auth_tag))
                              (Reads-Ends_last _ _ p.auth_tag _ (read_vec-Reads p.auth_tag) (
                                at_end-Ends _ (
                                  check-Ends (bail_if (not true) trailing_bytes) _ refl (
                                    check-Ends
                                      (validate_packet_field p.node_id node_id_field max_id_len) _
                                      vn
                                      (check-Ends
                                        (validate_packet_field p.group_id group_id_field max_id_len)
                                        _ vg
                                        (check-Ends
                                          (bail_if (ltb max_auth_tag_len (length p.auth_tag))
                                            (long_auth_tag max_auth_tag_len))
                                          _ (rw vt refl) (pure-Ends p))))))))))))))))))))

-- Whatever `encode` writes for a packet whose ids are Rust strings, `decode` reads back as that
-- packet.
pub decode-encode :
    (p : HaPacket) (bs : Bytes)
    → IsText p.node_id
    → IsText p.group_id
    → encode p ≡ ok bs
    → decode bs ≡ ok p
unfolding decode
decode-encode p bs hn hg e =
    let (v, w) = encode_inv p e in
    (decode_with-Ends p hn hg (validate_packet_field-ok p.node_id node_id_field v.node_id)
        (validate_packet_field-ok p.group_id group_id_field v.group_id)
        (ground (arith, v.auth_tag))).of_run
      (new bs) (omega arith, rw w (omega (arith, length-wire-le p v))) w
