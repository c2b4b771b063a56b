-- ===== src/Text/Utf8.antt =====
-- `String::from_utf8`: the validation of the standard library, and its laws.
pub mod RoundTrip
pub mod Reads
use gruezi.Base.{
  ℕ, zero, suc, ◌+◌, ◌-◌, ◌*◌, Bool, ◌&&◌, ◌||◌, Option, none, some, [], ◌∷◌, leb, ◌==◌,
  if◌then◌else◌,
}
use gruezi.Base.Result.{Result, ok, err, ◌>>=◌}
use gruezi.Base.Word.{Bytes}
use gruezi.Text.{Text}

-- `Utf8Error`; `error_len` is `none` where the input ends inside a character.
pub record Utf8Error : Type 0 where
  pub valid_up_to : ℕ
  pub error_len : Option ℕ

abbrev within : ℕ → ℕ → ℕ → Bool
within lo hi b = leb lo b && leb b hi

abbrev is_continuation : ℕ → Bool
is_continuation = within 0x80 0xbf

-- The second byte of a character of three or four bytes: no overlong form, no surrogate, and
-- nothing past the last code point.
second_of_three : ℕ → ℕ → Bool
second_of_three a b =
    (a == 0xe0 && within 0xa0 0xbf b)
    || (within 0xe1 0xec a && is_continuation b)
    || (a == 0xed && within 0x80 0x9f b)
    || (within 0xee 0xef a && is_continuation b)

pub second_of_four : ℕ → ℕ → Bool
second_of_four a b =
    (a == 0xf0 && within 0x90 0xbf b)
    || (within 0xf1 0xf3 a && is_continuation b)
    || (a == 0xf4 && within 0x80 0x8f b)

-- A character and its width, or the length of what is wrong.
abbrev Read : Type 0
Read = Result (Option ℕ) (ℕ × ℕ)

pub two_bytes : ℕ → Bytes → Read
two_bytes a [] = err none
two_bytes a (b ∷ bs) =
    if is_continuation b then ok ((a - 0xc0) * 64 + (b - 0x80), 2) else err (some 1)

pub three_bytes : ℕ → Bytes → Read
three_bytes a [] = err none
three_bytes a (b ∷ []) = if second_of_three a b then err none else err (some 1)
three_bytes a (b ∷ c ∷ cs) =
    if second_of_three a b
    then if is_continuation c
      then ok ((a - 0xe0) * 4096 + (b - 0x80) * 64 + (c - 0x80), 3)
      else err (some 2)
    else err (some 1)

pub four_bytes : ℕ → Bytes → Read
four_bytes a [] = err none
four_bytes a (b ∷ []) = if second_of_four a b then err none else err (some 1)
four_bytes a (b ∷ c ∷ []) =
    if second_of_four a b
    then if is_continuation c then err none else err (some 2)
    else err (some 1)
four_bytes a (b ∷ c ∷ d ∷ ds) =
    if second_of_four a b
    then if is_continuation c
      then if is_continuation d
        then ok ((a - 0xf0) * 262144 + (b - 0x80) * 4096 + (c - 0x80) * 64 + (d - 0x80), 4)
        else err (some 3)
      else err (some 2)
    else err (some 1)

pub decode_char : ℕ → Bytes → Read
unfolding two_bytes three_bytes four_bytes second_of_three second_of_four
decode_char a bs =
    if leb a 0x7f
    then ok (a, 1)
    else if within 0xc2 0xdf a
    then two_bytes a bs
    else if within 0xe0 0xef a
    then three_bytes a bs
    else if within 0xf0 0xf4 a
    then four_bytes a bs
    else err (some 1)

abbrev error_at : ℕ → Read → Result Utf8Error (ℕ × ℕ)
error_at i (ok r) = ok r
error_at i (err l) = err (record { valid_up_to = i; error_len = l })

-- `skip` bytes belong to the character just read; `i` is the index of the next one.
from_utf8_at : ℕ → ℕ → Bytes → Result Utf8Error Text
unfolding decode_char
from_utf8_at i skip [] = ok []
from_utf8_at i (suc skip) (b ∷ bs) = from_utf8_at i skip bs
from_utf8_at i zero (b ∷ bs) = do
  r ← error_at i (decode_char b bs)
  s ← from_utf8_at (i + r.1) (r.1 - 1) bs
  ok (r.0 ∷ s)

unfoldable pub from_utf8 : Bytes → Result Utf8Error Text
unfolding from_utf8_at
from_utf8 bs = from_utf8_at 0 0 bs
