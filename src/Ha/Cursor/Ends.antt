-- ===== src/Ha/Cursor/Ends.antt =====
-- A chain of reads over the bytes that it needs, step by step, to its value.
use gruezi.Base.{◌≡◌, refl, sym, ap, ◌∙◌, Bool, true, [], ◌++◌, append-nil, is_empty}
use gruezi.Base.Result.{Result, ok}
use gruezi.Base.Word.{Bytes}
use gruezi.Ha.Error.{Error}
use gruezi.Ha.Cursor.{PacketCursor, M, ◌>>=◌, ◌>>◌, lift, pure, value, is_at_end}
use gruezi.Ha.Cursor.Laws.{InRange, rest, Reads, is_at_end_lem}

-- Where exactly the bytes `xs` are unread, `m` gives `a`.
pub record Ends {A : Type 0} (m : M A) (xs : Bytes) (a : A) : Type 0 where
  pub of_run : (c : PacketCursor) → InRange c → rest c ≡ xs → value (m c) ≡ ok a

pub Reads-Ends :
    {A B : Type 0} (m : M A) (f : A → M B) (xs : Bytes) {ys : Bytes} (a : A) {b : B}
    → Reads m xs a
    → Ends (f a) ys b
    → Ends (m >>= f) (xs ++ ys) b
Reads-Ends m f xs {ys} a h next = record {
  of_run =
      λ c r e. let (c', step, left, r') = h c ys r e in rw (step, ◌>>=◌) (next.of_run c' r' left);
}

-- The last read.
pub Reads-Ends_last :
    {A B : Type 0} (m : M A) (f : A → M B) (xs : Bytes) (a : A) {b : B}
    → Reads m xs a
    → Ends (f a) [] b
    → Ends (m >>= f) xs b
Reads-Ends_last m f xs a h next = record {
  of_run = λ c r e. (Reads-Ends m f xs a h next).of_run c r (e ∙ sym (append-nil xs));
}

pub lift-Ends :
    {A B : Type 0} (m : Result Error A) (f : A → M B) {xs : Bytes} (a : A) {b : B}
    → m ≡ ok a
    → Ends (f a) xs b
    → Ends (lift m >>= f) xs b
lift-Ends m f a h next = record { of_run = λ c r e. rw (h, ◌>>=◌) (next.of_run c r e) }

pub check-Ends :
    {B : Type 0} (m : Result Error (Unit {0})) (k : M B) {xs : Bytes} {b : B}
    → m ≡ ok tt
    → Ends k xs b
    → Ends (lift m >> k) xs b
check-Ends m k h next = lift-Ends m (λ _. k) tt h next

pub at_end-Ends :
    {B : Type 0} (f : Bool → M B) {b : B} → Ends (f true) [] b → Ends (is_at_end >>= f) [] b
at_end-Ends f next = record {
  of_run =
      λ c r e. rw (is_at_end_lem c r ∙ ap (λ l. ok (is_empty l, c)) e, ◌>>=◌) (next.of_run c r e);
}

pub pure-Ends : {A : Type 0} (a : A) {xs : Bytes} → Ends (pure a) xs a
pure-Ends a = record { of_run = λ c r e. refl }
