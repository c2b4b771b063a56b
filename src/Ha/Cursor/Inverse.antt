-- ===== src/Ha/Cursor/Inverse.antt =====
-- From a successful read back to the bytes that it took.
use gruezi.Base.{
  ℕ, ◌+◌, ◌^◌, ◌≤◌, ◌<◌, ◌≡◌, refl, sym, ap, ◌∙◌, Bool, inl, inr, [], ◌∷◌, ◌++◌, arith, leb, length,
  take, drop, is_empty, All, All-take, All-drop, take-append-drop, length-take, Bool-cases,
}
use mathlib.Core.Path.{subst}
use gruezi.Base.Result.{Result, ok, err}
use gruezi.Base.Word.{Bytes, IsByte, be16, be32, be64, from_be}
use gruezi.Base.BigEndian.{Spells, be16-Spells, be32-Spells, be64-Spells}
use gruezi.Text.{Text, IsText, as_bytes}
use gruezi.Text.Utf8.{from_utf8}
use gruezi.Text.Utf8.RoundTrip.{from_utf8_inv}
use gruezi.Ha.Error.{Error}
use gruezi.Ha.Cursor.{
  PacketCursor, M, ◌>>=◌, lift, read_exact, read_u8, read_be, read_u16, read_u32, first, to_array,
  utf8_error, read_u64, read_string, read_vec, is_at_end,
}
use gruezi.Ha.Cursor.Laws.{
  InRange, rest, is_at_end_lem, read_exact_lem, read_exact_short, advance, drop-drop, length-rest,
}

-- A cursor in range whose unread bytes are bytes.
pub record IsCursor (c : PacketCursor) : Type 0 where
  pub in_range : InRange c
  pub bytes : All IsByte (rest c)

-- Between `c` and `c'` the bytes `xs` were read.
pub record Took (c c' : PacketCursor) (xs : Bytes) : Type 0 where
  pub splits : rest c ≡ xs ++ rest c'
  pub is_cursor : IsCursor c'

-- `m` gives `a` only for bytes `xs` with `P a xs`.
abbrev pub Takes : {A : Type 0} → M A → (A → Bytes → Type 0) → Type 0
Takes {A} m P =
    (c c' : PacketCursor) (a : A)
    → IsCursor c
    → m c ≡ ok (a, c')
    → (xs : Bytes) × P a xs × Took c c' xs

advance-Took :
    (c : PacketCursor) (n : ℕ)
    → IsCursor c
    → c.offset + n ≤ length c.bytes
    → Took c (advance c n) (take n (rest c))
advance-Took c n v h = record {
  splits = sym (take-append-drop n (rest c)) ∙ ap (◌++◌ (take n (rest c))) (sym moved);
  is_cursor = record {
    in_range = (h, v.in_range.1);
    bytes = rw moved (All-drop IsByte n (rest c) v.bytes);
  };
}
  where
    moved : rest (advance c n) ≡ drop n (rest c)
    moved = drop-drop c.offset n c.bytes

pub ok-cursor :
    {A : Type 0} (a b : A) (c d : PacketCursor)
    → ◌≡◌ {A = Result Error (A × PacketCursor)} (ok (a, c)) (ok (b, d))
    → (a ≡ b) × (c ≡ d)
ok-cursor a b c d e = (cc, cc)

-- `read_exact` takes `n` bytes, and gives them.
abbrev Exactly : ℕ → Bytes → Bytes → Type 0
Exactly n bs xs = (bs ≡ xs) × (length xs ≡ n) × All IsByte xs

read_exact-Takes : (n : ℕ) → Takes (read_exact n) (Exactly n)
read_exact-Takes n c c' bs v e = elim (Bool-cases (leb (c.offset + n) (length c.bytes))) [
  | inl fits ↦
      let (a, b) = ok-cursor _ bs _ c' (sym (read_exact_lem n c v.in_range (ground arith)) ∙ e) in
      (
        take n (rest c),
        (
          sym a,
          length-take n (rest c) (ground (arith, length-rest c)),
          All-take IsByte n (rest c) v.bytes,
        ),
        subst (λ d. Took c d (take n (rest c))) b (advance-Took c n v (ground arith)),
      )
  | inr short ↦ let failed = sym (read_exact_short n c v.in_range (ground arith)) ∙ e in absurd (cc)
]

-- A chain that succeeds has read with its first step, and goes on from there.
>>=-eq-ok :
    {A B : Type 0} (m : M A) (f : A → M B) (c : PacketCursor) {r : B × PacketCursor}
    → (m >>= f) c ≡ ok r
    → (a : A) × (c' : PacketCursor) × (m c ≡ ok (a, c')) × (f a c' ≡ ok r)
>>=-eq-ok {A} {B} m f c {r} e = go (m c) refl e
  where
    go :
        (x : Result Error (A × PacketCursor))
        → m c ≡ x
        → (elim x [ ok (a, c') ↦ f a c' | err k ↦ err k ]) ≡ ok r
        → (a : A) × (c' : PacketCursor) × (m c ≡ ok (a, c')) × (f a c' ≡ ok r)
    go (ok (a, c')) h k = (a, c', h, k)
    go (err x) h k = cc

pub Takes-then :
    {A B : Type 0} {R : Type 0} (m : M A) (f : A → M B) (P : A → Bytes → Type 0) (c : PacketCursor)
    {r : B × PacketCursor}
    → Takes m P
    → IsCursor c
    → (m >>= f) c ≡ ok r
    → ((a : A) (c' : PacketCursor) (xs : Bytes) → P a xs → Took c c' xs → f a c' ≡ ok r → R)
    → R
Takes-then m f P c h v e next =
    let (a, c', first, more) = >>=-eq-ok m f c e in
    let (xs, p, took) = h c c' a v first in next a c' xs p took more

pub lift-then :
    {A B : Type 0} {R : Type 0} (m : Result Error A) (f : A → M B) (c : PacketCursor)
    {r : B × PacketCursor}
    → (lift m >>= f) c ≡ ok r
    → ((a : A) → m ≡ ok a → f a c ≡ ok r → R)
    → R
lift-then (ok a) f c e next = next a refl e
lift-then (err x) f c e next = absurd (cc)

ok-value : {A : Type 0} (a b : A) → ◌≡◌ {A = Result Error A} (ok a) (ok b) → a ≡ b
ok-value a b e = cc

lift-eq-ok :
    {A : Type 0} (m : Result Error A) (a : A) (c c' : PacketCursor)
    → lift m c ≡ ok (a, c')
    → (m ≡ ok a) × (c ≡ c')
lift-eq-ok (ok x) a c c' e = (ap ok (ok-cursor x a c c' e).0, (ok-cursor x a c c' e).1)
lift-eq-ok (err x) a c c' e = absurd (cc)

first_inv :
    (xs : Bytes) (n : ℕ)
    → length xs ≡ 1
    → All IsByte xs
    → first xs ≡ ok n
    → (xs ≡ n ∷ []) × IsByte n
unfolding first
first_inv [] n l h e = absurd (omega arith)
first_inv (x ∷ []) n l h e = ground arith
first_inv (x ∷ y ∷ xs) n l h e = absurd (omega arith)

abbrev IsOne : ℕ → Bytes → Type 0
IsOne n xs = (xs ≡ n ∷ []) × IsByte n

-- The last step of a read does not move the cursor.
after_lift :
    {A : Type 0} (m : Result Error A) (Q : A → Bytes → Type 0) (a : A) (c c' d : PacketCursor)
    (xs : Bytes)
    → lift m c' ≡ ok (a, d)
    → Took c c' xs
    → (m ≡ ok a → Q a xs)
    → (us : Bytes) × Q a us × Took c d us
after_lift m Q a c c' d xs e took q =
    let (h, same) = lift-eq-ok m a c' d e in (xs, q h, subst (λ k. Took c k xs) same took)

pub read_u8-Takes : Takes read_u8 (λ n xs. (xs ≡ n ∷ []) × IsByte n)
unfolding read_u8
read_u8-Takes c d n v e =
    Takes-then (read_exact 1) _ (Exactly 1) c (read_exact-Takes 1) v e λ bs c' xs p took more.
      after_lift (first bs) IsOne n c c' d xs more took (λ h. first_inv xs n p.1 p.2 (rw p.0 at h))

to_array_inv : (n : ℕ) (xs ys : Bytes) → to_array n xs ≡ ok ys → xs ≡ ys
unfolding to_array
to_array_inv n xs ys e = ground arith

read_be-Takes :
    (k w : ℕ) (be : ℕ → Bytes)
    → ((xs : Bytes) → length xs ≡ k → All IsByte xs → Spells be w (from_be 0 xs) xs)
    → Takes (read_be k) (Spells be w)
unfolding read_be
read_be-Takes k w be spells c d n v e =
    Takes-then (read_exact k) _ (Exactly k) c (read_exact-Takes k) v e λ bs c' xs p took more.
      lift-then (to_array k bs) _ c' more λ array h done.
        after_lift (ok (from_be 0 array)) (Spells be w) n c c' d xs done took (λ q.
          subst (λ m. Spells be w m xs) (ok-value _ n q)
            (rw (← to_array_inv k bs array h, p.0) (spells xs p.1 p.2)))

pub read_u16-Takes : Takes read_u16 (λ n xs. (xs ≡ be16 n) × (n < 2 ^ 16))
unfolding read_u16
read_u16-Takes = read_be-Takes 2 16 be16 be16-Spells

pub read_u32-Takes : Takes read_u32 (λ n xs. (xs ≡ be32 n) × (n < 2 ^ 32))
unfolding read_u32
read_u32-Takes = read_be-Takes 4 32 be32 be32-Spells

pub read_u64-Takes : Takes read_u64 (λ n xs. (xs ≡ be64 n) × (n < 2 ^ 64))
unfolding read_u64
read_u64-Takes = read_be-Takes 8 64 be64 be64-Spells

utf8_error_inv : (bs : Bytes) (s : Text) → utf8_error (from_utf8 bs) ≡ ok s → from_utf8 bs ≡ ok s
unfolding utf8_error
utf8_error_inv bs s e = ground arith

-- The string is valid UTF-8, and as long as it was said to be.
abbrev IsString : ℕ → Text → Bytes → Type 0
IsString n s xs = IsText s × (xs ≡ as_bytes s) × (length xs ≡ n)

pub read_string-Takes :
    (n : ℕ) → Takes (read_string n) (λ s xs. IsText s × (xs ≡ as_bytes s) × (length xs ≡ n))
unfolding read_string
read_string-Takes n c d s v e =
    Takes-then (read_exact n) _ (Exactly n) c (read_exact-Takes n) v e λ bs c' xs p took more.
      after_lift (utf8_error (from_utf8 bs)) (IsString n) s c c' d xs more took
        (λ h. let (t, w) = from_utf8_inv xs s (rw p.0 at (utf8_error_inv bs s h)) in (t, w, p.1))

pub read_vec-Takes :
    (n : ℕ) → Takes (read_vec n) (λ bs xs. (bs ≡ xs) × (length xs ≡ n) × All IsByte xs)
unfolding read_vec
read_vec-Takes n = read_exact-Takes n

pub read_exact_Takes :
    (n : ℕ) → Takes (read_exact n) (λ bs xs. (bs ≡ xs) × (length xs ≡ n) × All IsByte xs)
read_exact_Takes n = read_exact-Takes n

pub at_end-then :
    {B : Type 0} {R : Type 0} (f : Bool → M B) (c : PacketCursor) {r : B × PacketCursor}
    → IsCursor c
    → (is_at_end >>= f) c ≡ ok r
    → (f (is_empty (rest c)) c ≡ ok r → R)
    → R
at_end-then f c v e next = next (rw (is_at_end_lem c v.in_range, ◌>>=◌) at e)
