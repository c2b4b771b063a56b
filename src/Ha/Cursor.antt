-- ===== src/Ha/Cursor.antt =====
-- `PacketCursor` of src/gruezi/ha.rs: the reader of the wire format, as a state monad with errors.
pub mod Laws
pub mod Ends
pub mod Gives
pub mod Inverse
use gruezi.Base.{
  ℕ, ◌-◌, ◌≡◌, Bool, ◌&&◌, Option, none, some, List, [], ◌∷◌, leb, ◌==◌, if◌then◌else◌, length,
  take, drop,
}
use gruezi.Base.Result.{Result, ok, err, ok_or}
use gruezi.Base.Word.{Bytes, from_be, saturating_add}
use gruezi.Text.{Text}
use gruezi.Text.Utf8.{Utf8Error, from_utf8}
use gruezi.Ha.Error.{Error, truncated, not_utf8}

pub record PacketCursor : Type 0 where
  pub bytes : Bytes
  pub offset : ℕ

-- A read moves the cursor, or fails.
abbrev pub M : Type 0 → Type 0
M A = PacketCursor → Result Error (A × PacketCursor)

infixl 5 ◌>>=◌ ◌>>◌
abbrev pub ◌>>=◌ : {A B : Type 0} → M A → (A → M B) → M B
◌>>=◌ m f c = elim (m c) [ ok (a, c') ↦ f a c' | err e ↦ err e ]

abbrev pub ◌>>◌ : {B : Type 0} → M (Unit {0}) → M B → M B
m >> k = m >>= λ _. k

abbrev pub pure : {A : Type 0} → A → M A
pure a c = ok (a, c)

-- A step that does not read.
abbrev pub lift : {A : Type 0} → Result Error A → M A
lift r c = elim r [ ok a ↦ ok (a, c) | err e ↦ err e ]

abbrev pub value : {A : Type 0} → Result Error (A × PacketCursor) → Result Error A
value (ok (a, c)) = ok a
value (err e) = err e

-- `PacketCursor::new`
abbrev pub new : Bytes → PacketCursor
new bytes = record { bytes = bytes; offset = 0 }

-- `bytes.get(from..to)`
abbrev pub slice : Bytes → ℕ → ℕ → Option Bytes
slice bytes from to =
    if leb from to && leb to (length bytes) then some (take (to - from) (drop from bytes)) else none

-- `read_exact`
unfoldable pub read_exact : ℕ → M Bytes
read_exact n c =
    let end = saturating_add c.offset n in
    elim (slice c.bytes c.offset end) [
      | some s ↦ ok (s, record c { offset = end })
      | none ↦ err truncated
    ]

-- `first().copied()`
first : Bytes → Result Error ℕ
first [] = err truncated
first (b ∷ bs) = ok b

-- `try_into` an array of `n` bytes
to_array : ℕ → Bytes → Result Error Bytes
to_array n bs = if length bs == n then ok bs else err truncated

-- `read_u8`
unfoldable pub read_u8 : M ℕ
unfolding read_exact first
read_u8 = do bs ← read_exact 1; lift (first bs)

read_be : ℕ → M ℕ
unfolding read_exact to_array
read_be n = do bs ← read_exact n; array ← lift (to_array n bs); pure (from_be 0 array)

-- `read_u16`
unfoldable pub read_u16 : M ℕ
unfolding read_be
read_u16 = read_be 2

-- `read_u32`
unfoldable pub read_u32 : M ℕ
unfolding read_be
read_u32 = read_be 4

-- `read_u64`
unfoldable pub read_u64 : M ℕ
unfolding read_be
read_u64 = read_be 8

utf8_error : Result Utf8Error Text → Result Error Text
utf8_error (ok s) = ok s
utf8_error (err e) = err (not_utf8 e)

-- `read_string`
unfoldable pub read_string : ℕ → M Text
unfolding read_exact utf8_error
read_string n = do bs ← read_exact n; lift (utf8_error (from_utf8 bs))

-- `read_vec`
unfoldable pub read_vec : ℕ → M Bytes
unfolding read_exact
read_vec n = read_exact n

-- `is_empty`
unfoldable pub is_at_end : M Bool
is_at_end c = ok (c.offset == length c.bytes, c)
