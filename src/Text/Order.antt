-- ===== src/Text/Order.antt =====
-- `str::cmp`: only equal strings compare equal, and swapping the sides swaps the answer.
use Prim.Native.Nat.{Ordering}
use gruezi.Base.{◌≡◌, refl, ◌∙◌, sym, [], ◌∷◌, arith}
use gruezi.Base.Result.{Result, ok}
use gruezi.Base.Word.{Bytes}
use gruezi.Text.{Text, IsText, as_bytes, bytes_cmp, text_cmp}
use gruezi.Text.Utf8.{Utf8Error}
use gruezi.Text.Utf8.RoundTrip.{from_utf8-as_bytes}

-- `Ordering::reverse`
abbrev pub flip : Ordering → Ordering
flip Ordering.lt = Ordering.gt
flip Ordering.eq = Ordering.eq
flip Ordering.gt = Ordering.lt

bytes_cmp-flip : (a b : Bytes) → bytes_cmp b a ≡ flip (bytes_cmp a b)
unfolding bytes_cmp
bytes_cmp-flip [] [] = refl
bytes_cmp-flip [] (y ∷ ys) = refl
bytes_cmp-flip (x ∷ xs) [] = refl
bytes_cmp-flip (x ∷ xs) (y ∷ ys) = ground (arith, bytes_cmp-flip xs ys)

bytes_cmp-eq : (a b : Bytes) → bytes_cmp a b ≡ Ordering.eq → a ≡ b
unfolding bytes_cmp
bytes_cmp-eq [] [] h = refl
bytes_cmp-eq [] (y ∷ ys) h = cc
bytes_cmp-eq (x ∷ xs) [] h = cc
bytes_cmp-eq (x ∷ xs) (y ∷ ys) h = ground (arith, bytes_cmp-eq xs ys)

pub text_cmp-flip : (s t : Text) → text_cmp t s ≡ flip (text_cmp s t)
unfolding text_cmp
text_cmp-flip s t = bytes_cmp-flip (as_bytes s) (as_bytes t)

ok-injective : (s t : Text) → ◌≡◌ {A = Result Utf8Error Text} (ok s) (ok t) → s ≡ t
ok-injective s t e = cc

pub as_bytes-injective : (s t : Text) → IsText s → IsText t → as_bytes s ≡ as_bytes t → s ≡ t
as_bytes-injective s t hs ht e =
    ok-injective s t (sym (from_utf8-as_bytes s hs) ∙ rw e (from_utf8-as_bytes t ht))

-- Different strings are never tied.
pub text_cmp-eq : (s t : Text) → IsText s → IsText t → text_cmp s t ≡ Ordering.eq → s ≡ t
unfolding text_cmp
text_cmp-eq s t hs ht h = as_bytes-injective s t hs ht (bytes_cmp-eq (as_bytes s) (as_bytes t) h)
