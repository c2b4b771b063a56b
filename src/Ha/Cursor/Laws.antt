-- ===== src/Ha/Cursor/Laws.antt =====
-- What the reads of a cursor take off the bytes, and what they give.
use gruezi.Base.{
  ℕ, zero, suc, ◌+◌, ◌-◌, ◌^◌, ◌≤◌, ◌<◌, ◌≡◌, refl, ap, ◌∙◌, List, [], ◌∷◌, ◌++◌, append-nil,
  append_assoc, arith, ◌==◌, length, take, drop, take-append, drop-append, length-append, is_empty,
}
use gruezi.Base.Result.{Result, ok, err}
use gruezi.Base.Word.{Bytes, be16, be32, be64, from_be, from_be-be16, from_be-be32, from_be-be64}
use gruezi.Text.{Text, IsText, as_bytes}
use gruezi.Text.Utf8.{from_utf8}
use gruezi.Text.Utf8.RoundTrip.{from_utf8-as_bytes}
use gruezi.Ha.Error.{Error, truncated}
use gruezi.Ha.Cursor.{
  PacketCursor, M, ◌>>=◌, lift, pure, read_exact, read_u8, read_be, first, to_array, utf8_error,
  read_u16, read_u32, read_u64, read_string, read_vec, is_at_end,
}

-- The bytes that are not read yet.
abbrev pub rest : PacketCursor → Bytes
rest c = drop c.offset c.bytes

-- A Rust slice is shorter than 2 ^ 63 bytes.
abbrev pub InRange : PacketCursor → Type 0
InRange c = (c.offset ≤ length c.bytes) × (length c.bytes < 2 ^ 63)

drop-nil {ℓ} : {A : Type ℓ} (n : ℕ) → drop {A = A} n [] ≡ []
drop-nil zero = refl
drop-nil (suc n) = refl

pub drop-drop {ℓ} : {A : Type ℓ} (m n : ℕ) (xs : List A) → drop (m + n) xs ≡ drop n (drop m xs)
drop-drop zero n xs = let e : zero + n ≡ n = omega arith in rw e
drop-drop (suc m) n [] = rw (drop-nil (suc m + n), drop-nil n)
drop-drop (suc m) n (x ∷ xs) =
    let e : suc m + n ≡ suc (m + n) = omega arith in rw e (drop-drop m n xs)

length-drop {ℓ} : {A : Type ℓ} (n : ℕ) (xs : List A) → length (drop n xs) ≡ length xs - n
length-drop zero xs = omega arith
length-drop (suc n) [] = omega arith
length-drop (suc n) (x ∷ xs) = omega (arith, length-drop n xs)

-- `m` takes the bytes `xs` off the front, whatever stands behind them, and gives `a`.
abbrev pub Reads : {A : Type 0} → M A → Bytes → A → Type 0
Reads m xs a =
    (c : PacketCursor) (ys : Bytes)
    → InRange c
    → rest c ≡ xs ++ ys
    → (c' : PacketCursor) × (m c ≡ ok (a, c')) × (rest c' ≡ ys) × InRange c'

pub Reads-bind :
    {A B : Type 0} (m : M A) (f : A → M B) (xs ys : Bytes) (a : A) (b : B)
    → Reads m xs a
    → Reads (f a) ys b
    → Reads (m >>= f) (xs ++ ys) b
Reads-bind m f xs ys a b hm hf c zs r e =
    let (c', step, e', r') = hm c (ys ++ zs) r (e ∙ append_assoc xs ys zs) in
    let (c'', step', e'', r'') = hf c' zs r' e' in (c'', rw (step, ◌>>=◌) step', e'', r'')

pub Reads-pure : {A : Type 0} (a : A) → Reads (pure a) [] a
Reads-pure a c ys r e = (c, refl, e, r)

pub Reads-lift : {A : Type 0} (m : Result Error A) (a : A) → m ≡ ok a → Reads (lift m) [] a
Reads-lift m a h c ys r e = (c, rw h, e, r)

-- A cursor moved on by `n` bytes.
abbrev pub advance : PacketCursor → ℕ → PacketCursor
advance c n = record c { offset = c.offset + n }

pub length-rest : (c : PacketCursor) → length (rest c) ≡ length c.bytes - c.offset
length-rest c = length-drop c.offset c.bytes

pub read_exact_lem :
    (n : ℕ) (c : PacketCursor)
    → InRange c
    → c.offset + n ≤ length c.bytes
    → read_exact n c ≡ ok (take n (rest c), advance c n)
unfolding read_exact
read_exact_lem n c r h = ground arith

pub read_exact_short :
    (n : ℕ) (c : PacketCursor)
    → InRange c
    → length c.bytes < c.offset + n
    → read_exact n c ≡ err truncated
unfolding read_exact
read_exact_short n c r h = ground arith

pub read_exact-Reads : (xs : Bytes) → Reads (read_exact (length xs)) xs xs
read_exact-Reads xs c ys r e = (
  advance c (length xs),
  read_exact_lem (length xs) c r fits
      ∙ ap (λ s. ok (s, advance c (length xs))) (rw e (take-append xs ys)),
  drop-drop c.offset (length xs) c.bytes ∙ rw e (drop-append xs ys),
  (fits, r.1),
)
  where
    fits : c.offset + length xs ≤ length c.bytes
    fits = omega (arith, length-rest c, ap length e, length-append xs ys)

pub read_u8-Reads : (b : ℕ) → Reads read_u8 (b ∷ []) b
unfolding read_u8
read_u8-Reads b =
    Reads-bind (read_exact 1) (λ bs. lift (first bs)) (b ∷ []) [] (b ∷ []) b
      (read_exact-Reads (b ∷ [])) (Reads-lift (first (b ∷ [])) b refl)

read_be-Reads : (xs : Bytes) → Reads (read_be (length xs)) (xs ++ []) (from_be 0 xs)
unfolding read_be
read_be-Reads xs =
    Reads-bind (read_exact (length xs))
      (λ bs. lift (to_array (length xs) bs) >>= λ array. pure (from_be 0 array)) xs [] xs
      (from_be 0 xs) (read_exact-Reads xs)
      (Reads-bind (lift (to_array (length xs) xs)) (λ array. pure (from_be 0 array)) [] [] xs
        (from_be 0 xs) (Reads-lift (to_array (length xs) xs) xs (ground arith))
        (Reads-pure (from_be 0 xs)))

pub read_u16-Reads : (n : ℕ) → Reads read_u16 (be16 n) n
unfolding read_u16
read_u16-Reads n = rw (from_be-be16 n) at (read_be-Reads (be16 n))

pub read_u32-Reads : (n : ℕ) → Reads read_u32 (be32 n) n
unfolding read_u32
read_u32-Reads n = rw (from_be-be32 n) at (read_be-Reads (be32 n))

pub read_u64-Reads : (n : ℕ) → Reads read_u64 (be64 n) n
unfolding read_u64
read_u64-Reads n = rw (from_be-be64 n) at (read_be-Reads (be64 n))

pub read_string-Reads :
    (s : Text) → IsText s → Reads (read_string (length (as_bytes s))) (as_bytes s) s
unfolding read_string
read_string-Reads s h = rw (append-nil (as_bytes s)) at (
    Reads-bind (read_exact (length (as_bytes s))) (λ bs. lift (utf8_error (from_utf8 bs)))
      (as_bytes s) [] (as_bytes s) s (read_exact-Reads (as_bytes s))
      (Reads-lift (utf8_error (from_utf8 (as_bytes s))) s (rw (from_utf8-as_bytes s h))))

pub read_vec-Reads : (xs : Bytes) → Reads (read_vec (length xs)) xs xs
unfolding read_vec
read_vec-Reads xs = read_exact-Reads xs

at_end_lem : (n : ℕ) (xs : Bytes) → n ≤ length xs → (n == length xs) ≡ is_empty (drop n xs)
at_end_lem zero [] h = refl
at_end_lem zero (x ∷ xs) h = ground arith
at_end_lem (suc n) [] h = absurd (omega arith)
at_end_lem (suc n) (x ∷ xs) h = ground (arith, at_end_lem n xs)

-- `is_empty` tells whether bytes are left.
pub is_at_end_lem : (c : PacketCursor) → InRange c → is_at_end c ≡ ok (is_empty (rest c), c)
unfolding is_at_end
is_at_end_lem c r = ap (λ b. ok (b, c)) (at_end_lem c.offset c.bytes r.0)
