-- ===== src/Ha/Decision/Rank.antt =====
-- Rank: priority first, then the node id. Two nodes with different ids are never tied.
use Prim.Native.Nat.{Ordering}
use gruezi.Base.{ℕ, ◌<◌, ◌≡◌, ◌≢◌, ◌⊎◌, ◌↔◌, true, not, arith}
use gruezi.Text.{Text, IsText, text_cmp}
use gruezi.Text.Order.{text_cmp-flip, text_cmp-eq}
use gruezi.Ha.Decision.{outranks}

-- The rank that the documentation describes.
abbrev pub Outranks : ℕ → Text → ℕ → Text → Type 0
Outranks p n q m = (q < p) ⊎ ((p ≡ q) × (text_cmp n m ≡ Ordering.gt))

pub outranks_iff :
    (p : ℕ) (n : Text) (q : ℕ) (m : Text) → (outranks p n q m ≡ true) ↔ Outranks p n q m
unfolding outranks
outranks_iff p n q m = ground arith

tie : (n m : Text) → IsText n → IsText m → n ≢ m → text_cmp n m ≢ Ordering.eq
tie n m hn hm ne e = ne (text_cmp-eq n m hn hm e)

-- Of two different node ids, each a Rust string, at any priorities, exactly one outranks the
-- other.
pub outranks_flip :
    (p : ℕ) (n : Text) (q : ℕ) (m : Text)
    → IsText n
    → IsText m
    → n ≢ m
    → outranks q m p n ≡ not (outranks p n q m)
unfolding outranks
outranks_flip p n q m hn hm ne = ground (arith, text_cmp-flip n m, tie n m hn hm ne)
