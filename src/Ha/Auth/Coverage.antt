-- ===== src/Ha/Auth/Coverage.antt =====
-- What the authentication tag covers: the key and every field of a packet but its version.
use gruezi.Base.{
  ℕ, ◌<◌, ◌≡◌, ◌≢◌, inl, inr, refl, sym, ap, ◌∙◌, true, [], ◌∷◌, ◌++◌, arith, All, All-append, ltb,
  Bool-cases,
}
use gruezi.Base.Result.{Result, ok}
use gruezi.Base.Word.{Bytes, IsU32, be64, from_be, from_be-be64, u32_max}
use gruezi.Text.{Text, IsScalar, IsText, encode_char, as_bytes, text_eq, text_eq_iff}
use gruezi.Text.Order.{as_bytes-injective}
use gruezi.Ha.Auth.{le32, le64, write_str, auth_stream, auth_tag, verify_auth_tag, build_packet}
use gruezi.Ha.Runtime.{HaAuth, none_auth, shared, HaRuntimeConfig}
use gruezi.Ha.Packet.{HaPacket}
use gruezi.Ha.Error.{Error}
use gruezi.Ha.State.{HaState, as_u8}

abbrev NotEnd : ℕ → Type 0
NotEnd b = b < 0xff

encode_char-NotEnd : (c : ℕ) → IsScalar c → All NotEnd (encode_char c)
unfolding encode_char
encode_char-NotEnd c s = ground arith

as_bytes-NotEnd : (s : Text) → IsText s → All NotEnd (as_bytes s)
unfolding as_bytes
as_bytes-NotEnd [] h = tt
as_bytes-NotEnd (c ∷ cs) h =
    All-append NotEnd (encode_char c) (as_bytes cs) (encode_char-NotEnd c h.0)
      (as_bytes-NotEnd cs h.1)

-- The first 0xff ends the string.
split_at_end :
    (xs ys us vs : Bytes)
    → All NotEnd xs
    → All NotEnd ys
    → xs ++ (0xff ∷ us) ≡ ys ++ (0xff ∷ vs)
    → (xs ≡ ys) × (us ≡ vs)
split_at_end [] [] us vs hx hy e = (refl, cc)
split_at_end [] (y ∷ ys) us vs hx hy e = ground arith
split_at_end (x ∷ xs) [] us vs hx hy e = ground arith
split_at_end (x ∷ xs) (y ∷ ys) us vs hx hy e = ground (arith, split_at_end xs ys us vs hx.1 hy.1)

write_str-injective :
    (s t : Text) (us vs : Bytes)
    → IsText s
    → IsText t
    → write_str s us ≡ write_str t vs
    → (s ≡ t) × (us ≡ vs)
write_str-injective s t us vs hs ht e =
    let (same, more) =
      split_at_end (as_bytes s) (as_bytes t) us vs (as_bytes-NotEnd s hs) (as_bytes-NotEnd t ht)
        e in
    (as_bytes-injective s t hs ht same, more)

as_u8-injective : (s t : HaState) → as_u8 s ≡ as_u8 t → s ≡ t
unfolding as_u8
as_u8-injective s t e = ground arith

-- The fields that the tag covers.
pub record Covered (p q : HaPacket) : Type 0 where
  pub group_id : p.group_id ≡ q.group_id
  pub node_id : p.node_id ≡ q.node_id
  pub priority : p.priority ≡ q.priority
  pub dead_factor : p.dead_factor ≡ q.dead_factor
  pub advert_interval_ms : p.advert_interval_ms ≡ q.advert_interval_ms
  pub state : p.state ≡ q.state
  pub sequence : p.sequence ≡ q.sequence

numbers-injective :
    (p q : HaPacket)
    → p.priority ∷ p.dead_factor ∷ (le32 p.advert_interval_ms ++ (as_u8 p.state ∷ le64 p.sequence))
      ≡ q.priority
        ∷ q.dead_factor
        ∷ (le32 q.advert_interval_ms ++ (as_u8 q.state ∷ le64 q.sequence))
    → (p.priority ≡ q.priority)
      × (p.dead_factor ≡ q.dead_factor)
      × (p.advert_interval_ms ≡ q.advert_interval_ms)
      × (p.state ≡ q.state)
      × (p.sequence ≡ q.sequence)
numbers-injective p q e = ground (arith, as_u8-injective p.state q.state)

-- The texts of a packet are Rust strings.
abbrev pub HasTexts : HaPacket → Type 0
HasTexts p = IsText p.group_id × IsText p.node_id

-- Where the keys and the ids are Rust strings, two equal streams of bytes for the hasher come
-- from equal keys and from packets with the same group, node id, priority, dead factor,
-- interval, state and sequence number: no part can be shifted into another.
pub auth_stream-injective :
    (k l : Text) (p q : HaPacket)
    → IsText k
    → IsText l
    → HasTexts p
    → HasTexts q
    → auth_stream k p ≡ auth_stream l q
    → (k ≡ l) × Covered p q
unfolding auth_stream
auth_stream-injective k l p q hk hl hp hq e =
    let (key, e1) = write_str-injective k l _ _ hk hl e in
    let (group, e2) = write_str-injective p.group_id q.group_id _ _ hp.0 hq.0 e1 in
    let (node, e3) = write_str-injective p.node_id q.node_id _ _ hp.1 hq.1 e2 in
    let (priority, dead, interval, state, sequence) = numbers-injective p q e3 in
    (
      key,
      record {
        group_id = group;
        node_id = node;
        priority = priority;
        dead_factor = dead;
        advert_interval_ms = interval;
        state = state;
        sequence = sequence;
      },
    )

be64-injective : (m n : ℕ) → be64 m ≡ be64 n → m ≡ n
be64-injective m n e = sym (from_be-be64 m) ∙ ap (from_be 0) e ∙ from_be-be64 n

-- What a node advertises, before its tag.
abbrev pub advert : HaRuntimeConfig → HaState → ℕ → HaPacket
advert r state sequence = record {
  protocol_version = r.protocol_version;
  state = state;
  priority = r.priority;
  dead_factor = r.dead_factor;
  advert_interval_ms = r.advert_interval_ms;
  sequence = sequence;
  node_id = r.node_id;
  group_id = r.group_id;
  auth_tag = [];
}

ok-eq : (p q : HaPacket) → ◌≡◌ {A = Result Error HaPacket} (ok p) (ok q) → p ≡ q
ok-eq p q e = cc

module _ (hash : Bytes → ℕ) where
  verified_tag :
      (r : HaRuntimeConfig) (k : Text) (p : HaPacket)
      → r.auth ≡ shared k
      → verify_auth_tag hash r p ≡ true
      → be64 (hash (auth_stream k p)) ≡ p.auth_tag
  unfolding verify_auth_tag
  verified_tag r k p e h =
      ap (λ a. auth_tag hash a p) (sym e) ∙ (text_eq_iff (auth_tag hash r.auth p) p.auth_tag).0 h

  -- Where the keys and the ids are Rust strings, one tag that two nodes with shared keys
  -- accept, for packets that differ in what the tag covers or under different keys, gives two
  -- different streams on which the hash takes one value.
  pub verify_reused :
      (r s : HaRuntimeConfig) (k l : Text) (p q : HaPacket)
      → r.auth ≡ shared k
      → s.auth ≡ shared l
      → IsText k
      → IsText l
      → HasTexts p
      → HasTexts q
      → ¬ ((k ≡ l) × Covered p q)
      → verify_auth_tag hash r p ≡ true
      → verify_auth_tag hash s q ≡ true
      → p.auth_tag ≡ q.auth_tag
      → (auth_stream k p ≢ auth_stream l q) × (hash (auth_stream k p) ≡ hash (auth_stream l q))
  verify_reused r s k l p q rk sl hk hl hp hq differ vp vq same = (
    λ e. differ (auth_stream-injective k l p q hk hl hp hq e),
    be64-injective (hash (auth_stream k p)) (hash (auth_stream l q))
        (verified_tag r k p rk vp ∙ same ∙ sym (verified_tag s l q sl vq)),
  )

  -- Neither the version nor the tag itself goes into the tag.
  auth_tag_same :
      (a : HaAuth) (p : HaPacket) (v : ℕ) (t : Bytes)
      → auth_tag hash a (record p { protocol_version = v; auth_tag = t }) ≡ auth_tag hash a p
  unfolding auth_tag auth_stream
  auth_tag_same none_auth p v t = refl
  auth_tag_same (shared k) p v t = refl

  -- The tag does not cover the protocol version: a packet whose version is replaced by any
  -- other verifies exactly if the packet did.
  pub verify_any_version :
      (r : HaRuntimeConfig) (p : HaPacket) (v : ℕ)
      → verify_auth_tag hash r (record p { protocol_version = v }) ≡ verify_auth_tag hash r p
  unfolding verify_auth_tag
  verify_any_version r p v = ap (λ t. text_eq t p.auth_tag) (auth_tag_same r.auth p v p.auth_tag)

  abbrev pub tagged : HaRuntimeConfig → HaState → ℕ → HaPacket
  tagged r state sequence = record (advert r state sequence) {
    auth_tag = auth_tag hash r.auth (advert r state sequence);
  }

  pub build_packet_inv :
      (r : HaRuntimeConfig) (state : HaState) (sequence : ℕ) (p : HaPacket)
      → build_packet hash r state sequence ≡ ok p
      → IsU32 r.advert_interval_ms × (tagged r state sequence ≡ p)
  unfolding build_packet
  build_packet_inv r state sequence p built = elim (Bool-cases (ltb u32_max r.advert_interval_ms)) [
    | inl long ↦ absurd (cc (rw long at built))
    | inr short ↦ (ground arith, ok-eq (tagged r state sequence) p (rw short at built))
  ]

  -- What a node builds, any node with the same key verifies.
  pub verify-tagged :
      (r s : HaRuntimeConfig) (state : HaState) (sequence : ℕ)
      → s.auth ≡ r.auth
      → verify_auth_tag hash s (tagged r state sequence) ≡ true
  unfolding verify_auth_tag
  verify-tagged r s state sequence same =
      (text_eq_iff _ (auth_tag hash r.auth (advert r state sequence))).1 (
        ap (λ a. auth_tag hash a (tagged r state sequence)) same
        ∙ auth_tag_same r.auth (advert r state sequence) r.protocol_version _)
