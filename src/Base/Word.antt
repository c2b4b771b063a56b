-- ===== src/Base/Word.antt =====
-- Machine integers as native numbers with their range, bytes, and big-endian words.
use gruezi.Base.{ℕ, ◌+◌, ◌-◌, ◌*◌, ◌/◌, ◌%◌, ◌^◌, ◌<◌, ◌≡◌, List, [], ◌∷◌, arith, min}

abbrev pub Bytes : Type 0
Bytes = List ℕ

abbrev pub IsByte : ℕ → Type 0
IsByte b = b < 256

abbrev pub IsU8 : ℕ → Type 0
IsU8 n = n < 2 ^ 8

abbrev pub IsU16 : ℕ → Type 0
IsU16 n = n < 2 ^ 16

abbrev pub IsU32 : ℕ → Type 0
IsU32 n = n < 2 ^ 32

abbrev pub IsU64 : ℕ → Type 0
IsU64 n = n < 2 ^ 64

abbrev pub u32_max : ℕ
u32_max = 2 ^ 32 - 1

abbrev pub u64_max : ℕ
u64_max = 2 ^ 64 - 1

-- `u64::saturating_add`
abbrev pub saturating_add : ℕ → ℕ → ℕ
saturating_add a b = min (a + b) u64_max

-- `to_be_bytes` and `from_be_bytes`
abbrev pub be16 : ℕ → Bytes
be16 n = (n / 2 ^ 8) ∷ (n % 2 ^ 8) ∷ []

abbrev pub be32 : ℕ → Bytes
be32 n = (n / 2 ^ 24) ∷ (n / 2 ^ 16 % 2 ^ 8) ∷ (n / 2 ^ 8 % 2 ^ 8) ∷ (n % 2 ^ 8) ∷ []

abbrev pub be64 : ℕ → Bytes
be64 n =
    (n / 2 ^ 56)
    ∷ (n / 2 ^ 48 % 2 ^ 8)
    ∷ (n / 2 ^ 40 % 2 ^ 8)
    ∷ (n / 2 ^ 32 % 2 ^ 8)
    ∷ (n / 2 ^ 24 % 2 ^ 8)
    ∷ (n / 2 ^ 16 % 2 ^ 8)
    ∷ (n / 2 ^ 8 % 2 ^ 8)
    ∷ (n % 2 ^ 8)
    ∷ []

-- Horner's rule over any number of bytes.
abbrev pub from_be : ℕ → Bytes → ℕ
from_be acc [] = acc
from_be acc (b ∷ bs) = from_be (acc * 256 + b) bs

pub from_be-be16 : (n : ℕ) → from_be 0 (be16 n) ≡ n
from_be-be16 n = omega arith

pub from_be-be32 : (n : ℕ) → from_be 0 (be32 n) ≡ n
from_be-be32 n = omega arith

pub from_be-be64 : (n : ℕ) → from_be 0 (be64 n) ≡ n
from_be-be64 n = omega arith
