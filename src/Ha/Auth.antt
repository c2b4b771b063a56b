-- ===== src/Ha/Auth.antt =====
-- The authentication tag of src/gruezi/ha.rs. `DefaultHasher` hashes the bytes that are written
-- to it, by an algorithm that the standard library leaves open: it is the argument `hash` here.
-- A string is written as its bytes and 0xff, a number as its little-endian bytes.
pub mod Coverage
pub mod Sendable
use gruezi.Base.{ℕ, ◌/◌, ◌%◌, ◌^◌, ◌≡◌, Bool, List, [], ◌∷◌, ◌++◌, leb, if◌then◌else◌, ltb}
use gruezi.Base.Result.{Result, ok, err, ◌>>=◌, ◌>>◌, bail_if}
use gruezi.Base.Word.{Bytes, be64, u32_max}
use gruezi.Text.{Text, as_bytes, text_eq}
use gruezi.Ha.Error.{Error, long_interval}
use gruezi.Ha.State.{HaState, as_u8}
use gruezi.Ha.Runtime.{HaAuth, none_auth, shared, HaRuntimeConfig}
use gruezi.Ha.Packet.{HaPacket}

abbrev pub le32 : ℕ → Bytes
le32 n = (n % 2 ^ 8) ∷ (n / 2 ^ 8 % 2 ^ 8) ∷ (n / 2 ^ 16 % 2 ^ 8) ∷ (n / 2 ^ 24) ∷ []

abbrev pub le64 : ℕ → Bytes
le64 n =
    (n % 2 ^ 8)
    ∷ (n / 2 ^ 8 % 2 ^ 8)
    ∷ (n / 2 ^ 16 % 2 ^ 8)
    ∷ (n / 2 ^ 24 % 2 ^ 8)
    ∷ (n / 2 ^ 32 % 2 ^ 8)
    ∷ (n / 2 ^ 40 % 2 ^ 8)
    ∷ (n / 2 ^ 48 % 2 ^ 8)
    ∷ (n / 2 ^ 56)
    ∷ []

-- `impl Hash for str`, in front of what is written next
abbrev pub write_str : Text → Bytes → Bytes
write_str s more = as_bytes s ++ (0xff ∷ more)

-- The bytes that `auth_tag` writes to the hasher.
unfoldable pub auth_stream : Text → HaPacket → Bytes
auth_stream key p = write_str key (
    write_str p.group_id (
      write_str p.node_id (
        p.priority
        ∷ p.dead_factor
        ∷ (le32 p.advert_interval_ms ++ (as_u8 p.state ∷ le64 p.sequence)))))

module _ (hash : Bytes → ℕ) where
  tag_for : HaAuth → HaPacket → Bytes
  tag_for none_auth p = []
  tag_for (shared key) p = be64 (hash (auth_stream key p))

  -- `auth_tag`
  unfoldable pub auth_tag : HaAuth → HaPacket → Bytes
  unfolding tag_for
  auth_tag auth p = tag_for auth p

  -- `verify_auth_tag`
  unfoldable pub verify_auth_tag : HaRuntimeConfig → HaPacket → Bool
  unfolding auth_tag text_eq
  verify_auth_tag r p = text_eq (auth_tag r.auth p) p.auth_tag

  -- `build_packet`
  unfoldable pub build_packet : HaRuntimeConfig → HaState → ℕ → Result Error HaPacket
  unfolding auth_tag
  build_packet r state sequence = do
    bail_if (ltb u32_max r.advert_interval_ms) long_interval
    let packet : HaPacket = record {
      protocol_version = r.protocol_version;
      state = state;
      priority = r.priority;
      dead_factor = r.dead_factor;
      advert_interval_ms = r.advert_interval_ms;
      sequence = sequence;
      node_id = r.node_id;
      group_id = r.group_id;
      auth_tag = [];
    }
    ok (record packet { auth_tag = auth_tag r.auth packet })
