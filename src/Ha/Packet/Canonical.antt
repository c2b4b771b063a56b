-- ===== src/Ha/Packet/Canonical.antt =====
-- `decode` accepts nothing but what `encode` writes.
use gruezi.Base.{
  ℕ, Bool, zero, suc, ◌^◌, ◌≤◌, ◌<◌, ◌≡◌, refl, sym, ap, ◌∙◌, some, [], ◌∷◌, ◌++◌, append-nil,
  arith, ltb, length, not, is_empty, All,
}
use mathlib.Core.Path.{subst}
use gruezi.Base.Result.{Result, ok, err, ok_or, bail_if}
use gruezi.Base.Word.{Bytes, IsByte, IsU8, IsU32, IsU64, be16, be32, be64}
use gruezi.Text.{Text, IsText, as_bytes, len, text_eq, text_eq_iff}
use gruezi.Ha.Error.{
  Error, Field, invalid_magic, invalid_state, trailing_bytes, long_auth_tag, node_id_field,
  group_id_field,
}
use gruezi.Ha.State.{HaState, as_u8, try_from_u8}
use gruezi.Ha.Cursor.{PacketCursor, new, value}
use gruezi.Ha.Cursor.Inverse.{
  read_u8-Takes, read_u16-Takes, read_u32-Takes, read_u64-Takes, read_string-Takes, read_vec-Takes,
  read_exact_Takes,
}
use gruezi.Ha.Cursor.Gives.{Gives, Takes-Gives, lift-Gives, at_end-Gives, pure-Gives}
use gruezi.Ha.Packet.Encode.{IsEncodable, IsId, encode_ok, validate_packet_field_inv}
use gruezi.Ha.Packet.{
  HaPacket, encode, wire, packet_magic, validate_packet_field, max_id_len, max_auth_tag_len,
}
use gruezi.Ha.Packet.Decode.{decode, decode_with}

try_from_u8_inv : (n : ℕ) (s : HaState) → try_from_u8 n ≡ some s → n ≡ as_u8 s
unfolding try_from_u8 as_u8
try_from_u8_inv zero s e = ground arith
try_from_u8_inv (suc zero) s e = ground arith
try_from_u8_inv (suc (suc zero)) s e = ground arith
try_from_u8_inv (suc (suc (suc n))) s e = cc

-- What the reads took, in a row.
wire-joins :
    (p : HaPacket) {x0 x1 x2 x3 x4 x5 x6 x7 x8 x9 xa xb xd ys : Bytes}
    → x0 ≡ packet_magic
    → x1 ≡ p.protocol_version ∷ []
    → x2 ≡ as_u8 p.state ∷ []
    → x3 ≡ p.priority ∷ []
    → x4 ≡ p.dead_factor ∷ []
    → x5 ≡ be32 p.advert_interval_ms
    → x6 ≡ be64 p.sequence
    → x7 ≡ len p.node_id ∷ []
    → x8 ≡ as_bytes p.node_id
    → x9 ≡ len p.group_id ∷ []
    → xa ≡ as_bytes p.group_id
    → xb ≡ be16 (length p.auth_tag)
    → xd ≡ p.auth_tag
    → ys ≡ []
    → x0
        ++ (x1
            ++ (x2
                ++ (x3
                    ++ (x4 ++ (x5 ++ (x6 ++ (x7 ++ (x8 ++ (x9 ++ (xa ++ (xb ++ (xd ++ ys))))))))))))
      ≡ wire p
unfolding wire
wire-joins p h0 h1 h2 h3 h4 h5 h6 h7 h8 h9 ha hb hd hy =
    rw (h0, h1, h2, h3, h4, h5, h6, h7, h8, h9, ha, hb, hd, hy, append-nil)

-- The length byte of a string is that of the string.
length_byte :
    {x x' : Bytes} (n : ℕ) (s : Text)
    → x ≡ n ∷ []
    → x' ≡ as_bytes s
    → length x' ≡ n
    → x ≡ len s ∷ []
unfolding len
length_byte n s h e k = h ∙ ap (λ m. m ∷ []) (sym k ∙ ap length e)

magic_inv :
    (magic x : Bytes) {u : Unit {0}}
    → bail_if (not (text_eq magic packet_magic)) invalid_magic ≡ ok u
    → magic ≡ x
    → x ≡ packet_magic
magic_inv magic x h e = sym e ∙ (text_eq_iff magic packet_magic).0 (ground arith)

state_inv :
    (byte : ℕ) (s : HaState) (e : Error) → ok_or (try_from_u8 byte) e ≡ ok s → byte ≡ as_u8 s
state_inv byte s e h = try_from_u8_inv byte s (ground arith)

ended_inv :
    (xs : Bytes) (at_end : Bool) (e : Error) {u : Unit {0}}
    → is_empty xs ≡ at_end
    → bail_if (not at_end) e ≡ ok u
    → xs ≡ []
ended_inv [] at_end e f h = refl
ended_inv (x ∷ xs) at_end e f h = absurd (cc (f, h))

short_inv : (n : ℕ) (e : Error) {u : Unit {0}} → bail_if (ltb max_auth_tag_len n) e ≡ ok u → n ≤ 64
short_inv n e h = ground arith

field_inv :
    (s : Text) (f : Field) {u : Unit {0}} → validate_packet_field s f max_id_len ≡ ok u → IsId s
field_inv s f {u = tt} h = validate_packet_field_inv s f h

-- The fields have the types of `HaPacket`: u8, u32, u64, `String` and `Vec<u8>`.
pub record IsTyped (p : HaPacket) : Type 0 where
  pub protocol_version : IsU8 p.protocol_version
  pub priority : IsU8 p.priority
  pub dead_factor : IsU8 p.dead_factor
  pub advert_interval_ms : IsU32 p.advert_interval_ms
  pub sequence : IsU64 p.sequence
  pub node_id : IsText p.node_id
  pub group_id : IsText p.group_id
  pub auth_tag : All IsByte p.auth_tag

-- What a successful decoding says of the bytes.
record Accepted (p : HaPacket) (bs : Bytes) : Type 0 where
  typed : IsTyped p
  encodable : IsEncodable p
  is_wire : bs ≡ wire p

-- Each step of the source, with what its success says.
decode_with-Gives : Gives decode_with Accepted
unfolding decode_with
decode_with-Gives = Takes-Gives _ _ (read_exact_Takes (length packet_magic)) λ magic x0 q0.
    lift-Gives (bail_if (not (text_eq magic packet_magic)) invalid_magic) _ λ u is_magic.
      Takes-Gives _ _ read_u8-Takes λ version x1 q1. Takes-Gives _ _ read_u8-Takes λ byte x2 q2.
        lift-Gives (ok_or (try_from_u8 byte) (invalid_state byte)) _ λ state is_state.
          Takes-Gives _ _ read_u8-Takes λ priority x3 q3.
            Takes-Gives _ _ read_u8-Takes λ dead x4 q4.
              Takes-Gives _ _ read_u32-Takes λ interval x5 q5.
                Takes-Gives _ _ read_u64-Takes λ sequence x6 q6.
                  Takes-Gives _ _ read_u8-Takes λ node_len x7 q7.
                    Takes-Gives _ _ (read_string-Takes node_len) λ node x8 q8.
                      Takes-Gives _ _ read_u8-Takes λ group_len x9 q9.
                        Takes-Gives _ _ (read_string-Takes group_len) λ group xa qa.
                          Takes-Gives _ _ read_u16-Takes λ tag_len xb qb.
                            Takes-Gives _ _ (read_vec-Takes tag_len) λ tag xd qd.
                              at_end-Gives _ λ at_end.
                                lift-Gives (bail_if (not at_end) trailing_bytes) _ λ u ended.
                                  lift-Gives (validate_packet_field node node_id_field max_id_len) _
                                    λ u node_ok.
                                      lift-Gives
                                        (validate_packet_field group group_id_field max_id_len) _
                                        λ u group_ok.
                                          lift-Gives
                                            (bail_if (ltb max_auth_tag_len (length tag))
                                              (long_auth_tag max_auth_tag_len))
                                            _
                                            λ u tag_ok. pure-Gives _ λ ys empty. record {
                                              typed = record {
                                                protocol_version = q1.1;
                                                priority = q3.1;
                                                dead_factor = q4.1;
                                                advert_interval_ms = q5.1;
                                                sequence = q6.1;
                                                node_id = q8.0;
                                                group_id = qa.0;
                                                auth_tag = subst (All IsByte) (sym qd.0) qd.2;
                                              };
                                              encodable = record {
                                                node_id = field_inv node node_id_field node_ok;
                                                group_id = field_inv group group_id_field group_ok;
                                                auth_tag = short_inv (length tag) _ tag_ok;
                                              };
                                              is_wire =
                                                  wire-joins _ (magic_inv magic x0 is_magic q0.0)
                                                    q1.0
                                                    (q2.0
                                                      ∙ ap (λ k. k ∷ [])
                                                          (state_inv byte state _ is_state))
                                                    q3.0 q4.0 q5.0 q6.0
                                                    (length_byte node_len node q7.0 q8.1 q8.2) q8.1
                                                    (length_byte group_len group q9.0 qa.1 qa.2)
                                                    qa.1
                                                    (qb.0
                                                      ∙ ap be16 (sym qd.1 ∙ ap length (sym qd.0)))
                                                    (sym qd.0) (ended_inv ys at_end _ empty ended);
                                            }

value-eq-ok :
    {A : Type 0} (r : Result Error (A × PacketCursor)) (a : A)
    → value r ≡ ok a
    → (c : PacketCursor) × (r ≡ ok (a, c))
value-eq-ok (ok (x, c)) a e = (c, cc)
value-eq-ok (err x) a e = absurd (cc)

accepted :
    (bs : Bytes) (p : HaPacket)
    → All IsByte bs
    → length bs < 2 ^ 63
    → decode bs ≡ ok p
    → Accepted p bs
unfolding decode
accepted bs p h l e =
    let (d, run) = value-eq-ok (decode_with (new bs)) p e in
    decode_with-Gives.of_run (new bs) d p (record { in_range = (omega arith, l); bytes = h }) run

-- A datagram, a list of bytes shorter than 2^63, that `decode` accepts is byte for byte what
-- `encode` writes for the packet that it gives: trailing bytes, blank or long ids and other
-- non-canonical forms are refused.
pub encode-decode :
    (bs : Bytes) (p : HaPacket)
    → All IsByte bs
    → length bs < 2 ^ 63
    → decode bs ≡ ok p
    → encode p ≡ ok bs
encode-decode bs p h l e =
    let a = accepted bs p h l e in encode_ok p a.encodable ∙ ap ok (sym a.is_wire)

-- A packet that `decode` gives for a list of bytes shorter than 2^63 has fields in the range of
-- their types: version, priority and dead factor are u8, the interval is a u32, the sequence
-- number a u64, the ids are Rust strings, and the tag is bytes; its ids are not blank, and ids
-- and tag have at most 64 bytes.
pub decode-IsTyped :
    (bs : Bytes) (p : HaPacket)
    → All IsByte bs
    → length bs < 2 ^ 63
    → decode bs ≡ ok p
    → IsTyped p × IsEncodable p
decode-IsTyped bs p h l e = let a = accepted bs p h l e in (a.typed, a.encodable)
