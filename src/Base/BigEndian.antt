-- ===== src/Base/BigEndian.antt =====
-- Big-endian bytes are those of the number that they stand for.
use gruezi.Base.{ℕ, ◌^◌, ◌<◌, ◌≡◌, [], ◌∷◌, arith, length, All}
use gruezi.Base.Word.{Bytes, IsByte, be16, be32, be64, from_be}

-- `xs` is the number `n` of `w` bits, written by `be`.
abbrev pub Spells : (ℕ → Bytes) → ℕ → ℕ → Bytes → Type 0
Spells be w n xs = (xs ≡ be n) × (n < 2 ^ w)

pub be16-Spells : (xs : Bytes) → length xs ≡ 2 → All IsByte xs → Spells be16 16 (from_be 0 xs) xs
be16-Spells (a ∷ b ∷ []) l h = ground arith
be16-Spells _ l h = absurd (omega arith)

pub be32-Spells : (xs : Bytes) → length xs ≡ 4 → All IsByte xs → Spells be32 32 (from_be 0 xs) xs
be32-Spells (a ∷ b ∷ c ∷ d ∷ []) l h = ground arith
be32-Spells _ l h = absurd (omega arith)

pub be64-Spells : (xs : Bytes) → length xs ≡ 8 → All IsByte xs → Spells be64 64 (from_be 0 xs) xs
be64-Spells (a ∷ b ∷ c ∷ d ∷ e ∷ f ∷ g ∷ h ∷ []) l k = ground arith
be64-Spells _ l h = absurd (omega arith)
