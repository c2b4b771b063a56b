-- ===== src/Ha/Cursor/Gives.antt =====
-- A chain of reads that succeeded, step by step, back to all the bytes that it began with.
use gruezi.Base.{◌≡◌, refl, sym, Bool, ◌++◌, is_empty}
use mathlib.Core.Path.{subst}
use gruezi.Base.Result.{Result, ok}
use gruezi.Base.Word.{Bytes}
use gruezi.Ha.Error.{Error}
use gruezi.Ha.Cursor.{PacketCursor, M, ◌>>=◌, lift, pure, is_at_end}
use gruezi.Ha.Cursor.Laws.{rest}
use gruezi.Ha.Cursor.Inverse.{IsCursor, Takes, Takes-then, lift-then, at_end-then, ok-cursor}

-- What a successful run of `m` says of its value and of all the bytes that were unread before it.
pub record Gives {A : Type 0} (m : M A) (Q : A → Bytes → Type 0) : Type 0 where
  pub of_run : (c d : PacketCursor) (a : A) → IsCursor c → m c ≡ ok (a, d) → Q a (rest c)

pub Takes-Gives :
    {A B : Type 0} (m : M A) (f : A → M B) {P : A → Bytes → Type 0} {Q : B → Bytes → Type 0}
    → Takes m P
    → ((a : A) (xs : Bytes) → P a xs → Gives (f a) (λ b ys. Q b (xs ++ ys)))
    → Gives (m >>= f) Q
Takes-Gives m f {P} {Q} h next = record {
  of_run = λ c d b v e. Takes-then m f P c h v e λ a c' xs p took more.
      subst (Q b) (sym took.splits) ((next a xs p).of_run c' d b took.is_cursor more);
}

pub lift-Gives :
    {A B : Type 0} (m : Result Error A) (f : A → M B) {Q : B → Bytes → Type 0}
    → ((a : A) → m ≡ ok a → Gives (f a) Q)
    → Gives (lift m >>= f) Q
lift-Gives m f next = record {
  of_run = λ c d b v e. lift-then m f c e λ a h more. (next a h).of_run c d b v more;
}

pub at_end-Gives :
    {B : Type 0} (f : Bool → M B) {Q : B → Bytes → Type 0}
    → ((at_end : Bool) → Gives (f at_end) (λ b ys. is_empty ys ≡ at_end → Q b ys))
    → Gives (is_at_end >>= f) Q
at_end-Gives f next = record {
  of_run =
      λ c d b v e. at_end-then f c v e λ more. (next (is_empty (rest c))).of_run c d b v more refl;
}

pub pure-Gives :
    {A : Type 0} (a : A) {Q : A → Bytes → Type 0} → ((ys : Bytes) → Q a ys) → Gives (pure a) Q
pure-Gives a {Q} h = record {
  of_run = λ c d b v e. subst (λ x. Q x (rest c)) (ok-cursor a b c d e).0 (h (rest c));
}
