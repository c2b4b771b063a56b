-- ===== src/Text/Utf8/RoundTrip.antt =====
-- `from_utf8` and `as_bytes` are inverse to one another.
use gruezi.Text.Utf8.Reads.{Reads, decode_char-Reads}
use gruezi.Base.{
  ℕ, zero, suc, ◌+◌, ◌-◌, ◌/◌, ◌%◌, ◌≤◌, ◌<◌, ◌≡◌, refl, ap, ◌∙◌, inl, inr, [], ◌∷◌, ◌++◌, arith,
  length, drop, ltb, Bool-cases,
}
use mathlib.Core.Path.{subst}
use gruezi.Base.Result.{Result, ok, err, ◌>>=◌, >>=-eq-ok}
use gruezi.Base.Word.{Bytes}
use gruezi.Text.{Text, IsScalar, IsText, encode_char, as_bytes}
use gruezi.Text.Utf8.{Read, decode_char, from_utf8_at, from_utf8, error_at, Utf8Error}

decode_one : (c : ℕ) (rest : Bytes) → c < 0x80 → decode_char c rest ≡ ok (c, 1)
unfolding decode_char
decode_one c rest h = ground arith

decode_two :
    (c : ℕ) (rest : Bytes)
    → 0x80 ≤ c
    → c < 0x800
    → decode_char (0xc0 + c / 64) ((0x80 + c % 64) ∷ rest) ≡ ok (c, 2)
unfolding decode_char
decode_two c rest h k = ground arith

decode_three :
    (c : ℕ) (rest : Bytes)
    → 0x800 ≤ c
    → c < 0x10000
    → IsScalar c
    → decode_char (0xe0 + c / 4096) ((0x80 + c / 64 % 64) ∷ (0x80 + c % 64) ∷ rest) ≡ ok (c, 3)
unfolding decode_char
decode_three c rest h k s = ground arith

decode_four :
    (c : ℕ) (rest : Bytes)
    → 0x10000 ≤ c
    → c < 0x110000
    → decode_char
        (0xf0 + c / 262144)
        ((0x80 + c / 4096 % 64) ∷ (0x80 + c / 64 % 64) ∷ (0x80 + c % 64) ∷ rest)
      ≡ ok (c, 4)
unfolding decode_char
decode_four c rest h k = ground arith

abbrev then_char : ℕ → Result Utf8Error Text → Result Utf8Error Text
then_char c r = r >>= λ s. ok (c ∷ s)

-- The decoder reads one encoded character and goes on behind it.
from_utf8_at-encode_char :
    (c i : ℕ) (rest : Bytes)
    → IsScalar c
    → from_utf8_at i 0 (encode_char c ++ rest)
      ≡ then_char c (from_utf8_at (i + length (encode_char c)) 0 rest)
unfolding from_utf8_at encode_char
from_utf8_at-encode_char c i rest s = elim (Bool-cases (ltb c 0x80)) [
  | inl a ↦ rw a (rw (decode_one c rest (ground arith)))
  | inr a ↦ elim (Bool-cases (ltb c 0x800)) [
    | inl b ↦ rw (a, b) (rw (decode_two c rest (ground arith) (ground arith)))
    | inr b ↦ elim (Bool-cases (ltb c 0x10000)) [
      | inl d ↦ rw (a, b, d) (rw (decode_three c rest (ground arith) (ground arith) s))
      | inr d ↦ rw (a, b, d) (rw (decode_four c rest (ground arith) (ground arith)))
    ]
  ]
]

from_utf8_at-as_bytes : (s : Text) (i : ℕ) → IsText s → from_utf8_at i 0 (as_bytes s) ≡ ok s
unfolding as_bytes
from_utf8_at-as_bytes [] i h = unfold from_utf8_at in refl
from_utf8_at-as_bytes (c ∷ cs) i h =
    from_utf8_at-encode_char c i (as_bytes cs) h.0
    ∙ ap (then_char c) (from_utf8_at-as_bytes cs (i + length (encode_char c)) h.1)

-- The bytes of any string decode to that string.
pub from_utf8-as_bytes : (s : Text) → IsText s → from_utf8 (as_bytes s) ≡ ok s
unfolding from_utf8
from_utf8-as_bytes s h = from_utf8_at-as_bytes s 0 h

from_utf8_at-skip :
    (i skip : ℕ) (bs : Bytes) → from_utf8_at i skip bs ≡ from_utf8_at i 0 (drop skip bs)
unfolding from_utf8_at
from_utf8_at-skip i zero bs = refl
from_utf8_at-skip i (suc skip) [] = refl
from_utf8_at-skip i (suc skip) (b ∷ bs) = from_utf8_at-skip i skip bs

decoded_char :
    (b c w : ℕ) (bs : Bytes) (s : Text)
    → Reads (b ∷ bs) (ok (c, w))
    → IsText s × (drop (w - 1) bs ≡ as_bytes s)
    → IsText (c ∷ s) × (b ∷ bs ≡ as_bytes (c ∷ s))
unfolding as_bytes
decoded_char b c zero bs s r h = absurd (omega (arith, r.2))
decoded_char b c (suc w) bs s r h =
    ((r.0, h.0), r.1 ∙ ap (◌++◌ (encode_char c)) (ap (λ k. drop k bs) (pred_suc w) ∙ h.1))
  where
    pred_suc : (k : ℕ) → k ≡ suc k - 1
    pred_suc k = omega arith

error_at-eq-ok : (i : ℕ) (r : Read) {p : ℕ × ℕ} → error_at i r ≡ ok p → r ≡ ok p
error_at-eq-ok i (ok p) e = cc
error_at-eq-ok i (err l) e = cc

from_utf8_at_inv :
    (bs : Bytes) (i skip : ℕ) (s : Text)
    → from_utf8_at i skip bs ≡ ok s
    → IsText s × (drop skip bs ≡ as_bytes s)
unfolding from_utf8_at
from_utf8_at_inv [] i zero [] e = (tt, unfold as_bytes in refl)
from_utf8_at_inv [] i (suc skip) [] e = (tt, unfold as_bytes in refl)
from_utf8_at_inv [] i skip (c ∷ s) e = cc
from_utf8_at_inv (b ∷ bs) i (suc skip) s e = from_utf8_at_inv bs i skip s e
from_utf8_at_inv (b ∷ bs) i zero s e =
    let ((c, w), read, more) = >>=-eq-ok (error_at i (decode_char b bs)) _ e in
    let (s', rest, done) = >>=-eq-ok (from_utf8_at (i + w) (w - 1) bs) _ more in
    let char : Reads (b ∷ bs) (ok (c, w)) =
      rw (error_at-eq-ok i (decode_char b bs) read) at (decode_char-Reads b bs) in
    let e' : c ∷ s' ≡ s = cc in
    subst (λ t. IsText t × (b ∷ bs ≡ as_bytes t)) e'
      (decoded_char b c w bs s' char (from_utf8_at_inv bs (i + w) (w - 1) s' rest))

-- An accepted input is the encoding of the string that it decodes to.
pub from_utf8_inv : (bs : Bytes) (s : Text) → from_utf8 bs ≡ ok s → IsText s × (bs ≡ as_bytes s)
unfolding from_utf8
from_utf8_inv bs s e = from_utf8_at_inv bs 0 0 s e
