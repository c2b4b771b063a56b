-- ===== src/Text/Utf8/Reads.antt =====
-- The characters that the UTF-8 decoder reads are those that the encoder writes.
use gruezi.Base.{
  ℕ, ◌+◌, ◌-◌, ◌*◌, ◌/◌, ◌%◌, ◌≤◌, ◌<◌, ◌≡◌, refl, true, inl, inr, [], ◌∷◌, ◌++◌, arith, leb, drop,
  Bool-cases,
}
use gruezi.Base.Result.{ok, err}
use gruezi.Base.Word.{Bytes}
use gruezi.Text.{IsScalar, encode_char}
use gruezi.Text.Utf8.{
  Read, two_bytes, three_bytes, four_bytes, second_of_three, second_of_four, is_continuation,
  within, decode_char,
}

-- What the decoder takes for a character is the encoding of a scalar value.
abbrev pub Reads : Bytes → Read → Type 0
Reads l (ok (c, w)) = IsScalar c × (l ≡ encode_char c ++ drop w l) × (0 < w)
Reads l (err _) = Unit

two_bytes-Reads : (a : ℕ) (bs : Bytes) → 0xc2 ≤ a → a ≤ 0xdf → Reads (a ∷ bs) (two_bytes a bs)
unfolding two_bytes encode_char
two_bytes-Reads a [] lo hi = tt
two_bytes-Reads a (b ∷ bs) lo hi = ground arith

three_bytes-Reads : (a : ℕ) (bs : Bytes) → 0xe0 ≤ a → a ≤ 0xef → Reads (a ∷ bs) (three_bytes a bs)
unfolding three_bytes encode_char second_of_three
three_bytes-Reads a [] lo hi = tt
three_bytes-Reads a (b ∷ []) lo hi = ground arith
three_bytes-Reads a (b ∷ c ∷ cs) lo hi = ground arith

encode_char_large :
    (c : ℕ)
    → 0x10000 ≤ c
    → encode_char c
      ≡ (0xf0 + c / 262144) ∷ (0x80 + c / 4096 % 64) ∷ (0x80 + c / 64 % 64) ∷ (0x80 + c % 64) ∷ []
unfolding encode_char
encode_char_large c h = ground arith

second_of_four_bounds :
    (a b : ℕ)
    → 0xf0 ≤ a
    → a ≤ 0xf4
    → second_of_four a b ≡ true
    → (0x80 ≤ b)
      × (b ≤ 0xbf)
      × (0x10 ≤ (a - 0xf0) * 64 + (b - 0x80))
      × ((a - 0xf0) * 64 + (b - 0x80) < 0x110)
unfolding second_of_four
second_of_four_bounds a b lo hi e = ground arith

-- `m` holds the bits of the first two bytes.
encode_char_four :
    (a b c d m : ℕ)
    → 0xf0 ≤ a
    → 0x80 ≤ b
    → b ≤ 0xbf
    → 0x80 ≤ c
    → c ≤ 0xbf
    → 0x80 ≤ d
    → d ≤ 0xbf
    → m ≡ (a - 0xf0) * 64 + (b - 0x80)
    → 0x10 ≤ m
    → encode_char (m * 4096 + (c - 0x80) * 64 + (d - 0x80)) ≡ a ∷ b ∷ c ∷ d ∷ []
encode_char_four a b c d m ha hb hb' hc hc' hd hd' e lo =
    rw (encode_char_large (m * 4096 + (c - 0x80) * 64 + (d - 0x80)) (omega arith))
      (cc (first, second, third, fourth))
  where
    first : 0xf0 + (m * 4096 + (c - 0x80) * 64 + (d - 0x80)) / 262144 ≡ a
    first = omega arith

    second : 0x80 + (m * 4096 + (c - 0x80) * 64 + (d - 0x80)) / 4096 % 64 ≡ b
    second = omega arith

    third : 0x80 + (m * 4096 + (c - 0x80) * 64 + (d - 0x80)) / 64 % 64 ≡ c
    third = omega arith

    fourth : 0x80 + (m * 4096 + (c - 0x80) * 64 + (d - 0x80)) % 64 ≡ d
    fourth = omega arith

four_bytes-char :
    (a b c d : ℕ) (ds : Bytes)
    → 0xf0 ≤ a
    → a ≤ 0xf4
    → second_of_four a b ≡ true
    → is_continuation c ≡ true
    → is_continuation d ≡ true
    → Reads
        (a ∷ b ∷ c ∷ d ∷ ds)
        (ok ((a - 0xf0) * 262144 + (b - 0x80) * 4096 + (c - 0x80) * 64 + (d - 0x80), 4))
four_bytes-char a b c d ds lo hi e f g = (
  ground (arith, bounds),
  rw regroup (
      rw (
        encode_char_four a b c d ((a - 0xf0) * 64 + (b - 0x80)) lo bounds.0 bounds.1 (ground arith)
          (ground arith) (ground arith) (ground arith) refl bounds.2)),
  omega arith,
)
  where
    bounds :
        (0x80 ≤ b)
        × (b ≤ 0xbf)
        × (0x10 ≤ (a - 0xf0) * 64 + (b - 0x80))
        × ((a - 0xf0) * 64 + (b - 0x80) < 0x110)
    bounds = second_of_four_bounds a b lo hi e

    regroup :
        (a - 0xf0) * 262144 + (b - 0x80) * 4096 + (c - 0x80) * 64 + (d - 0x80)
        ≡ ((a - 0xf0) * 64 + (b - 0x80)) * 4096 + (c - 0x80) * 64 + (d - 0x80)
    regroup = omega arith

four_bytes-Reads : (a : ℕ) (bs : Bytes) → 0xf0 ≤ a → a ≤ 0xf4 → Reads (a ∷ bs) (four_bytes a bs)
unfolding four_bytes
four_bytes-Reads a [] lo hi = tt
four_bytes-Reads a (b ∷ []) lo hi = ground arith
four_bytes-Reads a (b ∷ c ∷ []) lo hi = ground arith
four_bytes-Reads a (b ∷ c ∷ d ∷ ds) lo hi = elim (Bool-cases (second_of_four a b)) [
  | inr e ↦ rw e tt
  | inl e ↦ elim (Bool-cases (is_continuation c)) [
    | inr f ↦ rw (e, f) tt
    | inl f ↦ elim (Bool-cases (is_continuation d)) [
      | inr g ↦ rw (e, f, g) tt
      | inl g ↦ rw (e, f, g) (four_bytes-char a b c d ds lo hi e f g)
    ]
  ]
]

one_byte-Reads : (a : ℕ) (bs : Bytes) → a < 0x80 → Reads (a ∷ bs) (ok (a, 1))
unfolding encode_char
one_byte-Reads a bs h = ground arith

pub decode_char-Reads : (a : ℕ) (bs : Bytes) → Reads (a ∷ bs) (decode_char a bs)
unfolding decode_char
decode_char-Reads a bs = elim (Bool-cases (leb a 0x7f)) [
  | inl e ↦ rw e (one_byte-Reads a bs (ground arith))
  | inr e ↦ elim (Bool-cases (within 0xc2 0xdf a)) [
    | inl f ↦ rw (e, f) (two_bytes-Reads a bs (ground arith) (ground arith))
    | inr f ↦ elim (Bool-cases (within 0xe0 0xef a)) [
      | inl g ↦ rw (e, f, g) (three_bytes-Reads a bs (ground arith) (ground arith))
      | inr g ↦ elim (Bool-cases (within 0xf0 0xf4 a)) [
        | inl h ↦ rw (e, f, g, h) (four_bytes-Reads a bs (ground arith) (ground arith))
        | inr h ↦ rw (e, f, g, h) tt
      ]
    ]
  ]
]
