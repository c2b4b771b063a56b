-- ===== src/Base/Result.antt =====
-- `anyhow::Result`, generic in the error: `?` is the bind of a `do` block.
use gruezi.Base.{◌≡◌, ◌⊎◌, inl, inr, refl, Bool, true, false, Option, none, some}

pub data Result {ℓ} (E : Type ℓ) (A : Type ℓ) : Type ℓ where
  ok : A → Result E A
  err : E → Result E A

module _ {E : Type 0} {A B : Type 0} where
  infixl 5 ◌>>=◌
  abbrev pub ◌>>=◌ : Result E A → (A → Result E B) → Result E B
  err failure >>= k = err failure
  ok value >>= k = k value

  -- A bind that succeeds comes from two successes.
  pub >>=-eq-ok :
      (first : Result E A) (k : A → Result E B) {final : B}
      → (first >>= k) ≡ ok final
      → (value : A) × (first ≡ ok value) × (k value ≡ ok final)
  >>=-eq-ok (err failure) k done = cc
  >>=-eq-ok (ok value) k done = (value, refl, done)

module _ {E : Type 0} {B : Type 0} where
  infixl 5 ◌>>◌
  abbrev pub ◌>>◌ : Result E (Unit {0}) → Result E B → Result E B
  first >> rest = first >>= λ _. rest

-- `if failed { bail!(..) }`
abbrev pub bail_if : {E : Type 0} → Bool → E → Result E (Unit {0})
bail_if false failure = ok tt
bail_if true failure = err failure

-- `Option::ok_or_else`
abbrev pub ok_or : {E A : Type 0} → Option A → E → Result E A
ok_or none e = err e
ok_or (some a) e = ok a

-- A result is one of the two, with the equation.
pub result_cases :
    {E A : Type 0} → (m : Result E A) → ((a : A) × (m ≡ ok a)) ⊎ ((e : E) × (m ≡ err e))
result_cases (ok a) = inl (a, refl)
result_cases (err e) = inr (e, refl)
