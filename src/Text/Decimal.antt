-- ===== src/Text/Decimal.antt =====
-- Decimal `Display` of the unsigned integers, which can be read back.
use gruezi.Base.{
  ℕ, zero, suc, ◌+◌, ◌-◌, ◌*◌, ◌/◌, ◌%◌, ◌<◌, ◌≡◌, refl, sym, ap, ◌∙◌, [], ◌∷◌, ◌++◌, ltb, arith,
  if◌then◌else◌, Bool-cases, inl, inr,
}
use gruezi.Text.{Text}

digits_fuel : ℕ → ℕ → Text
digits_fuel zero n = []
digits_fuel (suc fuel) n =
    let front = digits_fuel fuel (n / 10) in
    let last = (b'0' + n % 10) ∷ [] in if ltb n 10 then last else front ++ last

-- Every step takes a digit off, so `n` steps are enough.
unfoldable pub display : ℕ → Text
unfolding digits_fuel
display n = digits_fuel (suc n) n

-- The number that digits stand for, after `acc`.
from_digits : ℕ → Text → ℕ
from_digits acc [] = acc
from_digits acc (c ∷ cs) = from_digits (acc * 10 + (c - 48)) cs

from_digits-++ :
    (acc : ℕ) (xs ys : Text) → from_digits acc (xs ++ ys) ≡ from_digits (from_digits acc xs) ys
unfolding from_digits
from_digits-++ acc [] ys = refl
from_digits-++ acc (x ∷ xs) ys = from_digits-++ (acc * 10 + (x - 48)) xs ys

from_digits-fuel : (fuel n : ℕ) → n < fuel → from_digits 0 (digits_fuel fuel n) ≡ n
unfolding digits_fuel from_digits
from_digits-fuel zero n lt = absurd (omega arith)
from_digits-fuel (suc fuel) n lt = elim (Bool-cases (ltb n 10)) [
  | inl e ↦ rw e (ground arith)
  | inr e ↦ rw e (
      from_digits-++ 0 (digits_fuel fuel (n / 10)) ((b'0' + n % 10) ∷ [])
      ∙ ap (λ k. from_digits k ((b'0' + n % 10) ∷ []))
          (from_digits-fuel fuel (n / 10) (ground arith))
      ∙ omega arith)
]

-- Different numbers print differently.
pub display_injective : (m n : ℕ) → display m ≡ display n → m ≡ n
unfolding display
display_injective m n e =
    sym (from_digits-fuel (suc m) m (omega arith))
    ∙ ap (from_digits 0) e
    ∙ from_digits-fuel (suc n) n (omega arith)
