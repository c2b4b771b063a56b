-- ===== src/Ha/Receive/Misread.antt =====
-- The text by which `is_auth_failure` of src/gruezi/ha.rs sorts errors, and a message that holds
-- text of the sender.
use gruezi.Base.{ℕ, ◌≡◌, ◌≢◌, refl, Bool, true, ◌||◌, Option, [], ◌∷◌, ◌++◌, arith}
use gruezi.Base.Result.{ok, err}
use gruezi.Base.Word.{Bytes}
use gruezi.Net.{SocketAddr}
use gruezi.Text.{Text, codes, contains, starts_with, text_eq_iff}
use gruezi.Ha.Error.{Error, wrong_group, is_auth_failure, to_string}
use gruezi.Ha.Packet.{HaPacket}
use gruezi.Ha.Packet.Decode.{decode}
use gruezi.Ha.Receive.{PeerObservation, handle_incoming_packet}
use gruezi.Ha.Runtime.{HaRuntimeConfig}

or-right : (a b : Bool) → b ≡ true → (a || b) ≡ true
or-right a b h = ground arith

contains-append :
    (t s pattern : Text) → contains s pattern ≡ true → contains (t ++ s) pattern ≡ true
unfolding contains
contains-append [] s pattern h = h
contains-append (c ∷ cs) s pattern h =
    or-right (starts_with (c ∷ (cs ++ s)) pattern) _ (contains-append cs s pattern h)

wrong_group-auth_failure :
    (g : Text)
    → contains g (codes "authentication failed") ≡ true
    → is_auth_failure (wrong_group g) ≡ true
unfolding is_auth_failure to_string
wrong_group-auth_failure g h =
    contains-append (codes "unexpected HA group ") g (codes "authentication failed") h

module _ (hash : Bytes → ℕ) (r : HaRuntimeConfig) where
  -- A datagram that decodes to a packet of the node's version and of another group, whose group
  -- id contains `authentication failed`, is refused for its group, and that error counts as an
  -- authentication failure.
  pub handle_incoming_packet-auth_failure :
      (payload : Bytes) (from : SocketAddr) (t : ℕ) (seen : Option PeerObservation) (p : HaPacket)
      → decode payload ≡ ok p
      → p.protocol_version ≡ r.protocol_version
      → p.group_id ≢ r.group_id
      → contains p.group_id (codes "authentication failed") ≡ true
      → (e : Error) × (handle_incoming_packet hash r payload from t seen ≡ err e)
        × (e ≡ wrong_group p.group_id)
        × (is_auth_failure e ≡ true)
  unfolding handle_incoming_packet
  handle_incoming_packet-auth_failure payload from t seen p d v g c = (
    wrong_group p.group_id,
    rw d (ground (arith, text_eq_iff p.group_id r.group_id)),
    refl,
    wrong_group-auth_failure p.group_id c,
  )
