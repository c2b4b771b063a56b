-- ===== src/Sockets/Retry.antt =====
-- The retry of `bind_udp_socket_with_retry` of src/gruezi/ha.rs.
use gruezi.Base.{
  ℕ, zero, suc, ◌≤◌, ◌<◌, ◌≡◌, refl, sym, ap, subst, ◌⊎◌, inl, inr, if◌then◌else◌, ◌∙◌, Bool, false,
  Option, none, some, arith,
}
use gruezi.Base.Result.{Result}
use gruezi.Net.{SocketAddr}
use gruezi.Ha.Error.{ErrorKind, addr_in_use}
use gruezi.Sockets.{
  Call, Domain, retry, backoff, is_in_use, bind_udp_socket, bind_udp_socket_with_retry, on_none,
}

-- A result after which no attempt follows: a socket, or another error.
abbrev pub Settles : Option ErrorKind → Type 0
Settles none = Unit {0}
Settles (some k) = is_in_use k ≡ false

on_none-none :
    {W A : Type 0} (p : Option ErrorKind × W) (f : W → A) (g : ErrorKind → W → A)
    → p.0 ≡ none
    → on_none p f g ≡ f p.1
on_none-none (none, w) f g e = refl
on_none-none (some k, w) f g e = absurd (cc e)

on_none-some :
    {W A : Type 0} (p : Option ErrorKind × W) (f : W → A) (g : ErrorKind → W → A) (k : ErrorKind)
    → p.0 ≡ some k
    → on_none p f g ≡ g k p.1
on_none-some (none, w) f g k e = absurd (cc e)
on_none-some (some k', w) f g k e = ap (λ x. g x w) (cc e)

module _ {W : Type 0} (exec : Call → W → Option ErrorKind × W)
    (local_addr : W → Result ErrorKind SocketAddr × W) (sleep : ℕ → W → W)
    (attempt : W → Option ErrorKind × W) where
  -- The state of the system before an attempt, when all attempts before it fail.
  unfoldable pub before : ℕ → W → W
  before zero w = w
  before (suc n) w = before n (sleep backoff (attempt w).1)

  -- Another attempt follows an address in use.
  retry-again :
      (left : ℕ) (w : W)
      → (attempt w).0 ≡ some addr_in_use
      → retry exec local_addr sleep attempt (suc left) w
        ≡ retry exec local_addr sleep attempt left (sleep backoff (attempt w).1)
  unfolding retry
  retry-again left w e = on_none-some (attempt w) _ _ addr_in_use e

  retry-stops :
      (left : ℕ) (w : W)
      → Settles (attempt w).0
      → retry exec local_addr sleep attempt left w ≡ attempt w
  unfolding retry
  retry-stops zero w s = refl
  retry-stops (suc left) w s = by_result (attempt w) refl s
    where
      by_result :
          (p : Option ErrorKind × W)
          → p ≡ attempt w
          → Settles p.0
          → on_none p
              (λ w'. (none, w'))
              (λ k w'.
                if is_in_use k
                then retry exec local_addr sleep attempt left (sleep backoff w')
                else (some k, w'))
            ≡ p
      by_result (none, w') e s = refl
      by_result (some k, w') e s = rw s refl

  -- If every attempt before attempt `k` finds the address in use, attempt `k` is allowed, and it
  -- gives a socket or another error, then the retry gives what attempt `k` gives.
  retry-Settles :
      (left k : ℕ) (w : W)
      → k ≤ left
      → ((i : ℕ) → i < k → (attempt (before i w)).0 ≡ some addr_in_use)
      → Settles (attempt (before k w)).0
      → retry exec local_addr sleep attempt left w ≡ attempt (before k w)
  unfolding before
  retry-Settles left zero w le busy s = retry-stops left w s
  retry-Settles zero (suc k) w le busy s = absurd (omega arith)
  retry-Settles (suc left) (suc k) w le busy s =
      retry-again left w (busy 0 (omega arith))
      ∙ retry-Settles left k (sleep backoff (attempt w).1) (omega arith)
          (λ i lt. busy (suc i) (omega arith)) s

  -- If every attempt finds the address in use, the retry ends with the last.
  retry-exhausted :
      (left : ℕ) (w : W)
      → ((i : ℕ) → i < left → (attempt (before i w)).0 ≡ some addr_in_use)
      → retry exec local_addr sleep attempt left w ≡ attempt (before left w)
  unfolding before retry
  retry-exhausted zero w busy = refl
  retry-exhausted (suc left) w busy =
      retry-again left w (busy 0 (omega arith))
      ∙ retry-exhausted left (sleep backoff (attempt w).1) (λ i lt. busy (suc i) (omega arith))

module _ {W : Type 0} (exec : Call → W → Option ErrorKind × W)
    (local_addr : W → Result ErrorKind SocketAddr × W) (sleep : ℕ → W → W) (domain : Domain)
    (addr : SocketAddr) (only_v6 : Option Bool) (w : W) where
  abbrev attempt : W → Option ErrorKind × W
  attempt = bind_udp_socket exec local_addr sleep domain addr only_v6

  abbrev before_attempt : ℕ → W
  before_attempt k = before exec local_addr sleep attempt k w

  -- If attempt `k`, counted from 0 and below 20, is the first that does not find the address in
  -- use, or the last of the 20, where all before it find it in use, then the retry ends with
  -- what that attempt gives, after `k` attempts and pauses.
  pub bind_udp_socket_with_retry_lem :
      (k : ℕ)
      → k < 20
      → ((i : ℕ) → i < k → (attempt (before_attempt i)).0 ≡ some addr_in_use)
      → Settles (attempt (before_attempt k)).0 ⊎ (k ≡ 19)
      → bind_udp_socket_with_retry exec local_addr sleep domain addr only_v6 w
        ≡ attempt (before_attempt k)
  unfolding bind_udp_socket_with_retry
  bind_udp_socket_with_retry_lem k lt busy (inl s) =
      retry-Settles exec local_addr sleep attempt 19 k w (omega arith) busy s
  bind_udp_socket_with_retry_lem k lt busy (inr last) =
      subst
        (λ n.
          ((i : ℕ) → i < n → (attempt (before_attempt i)).0 ≡ some addr_in_use)
          → retry exec local_addr sleep attempt 19 w ≡ attempt (before_attempt n))
        (sym last) (retry-exhausted exec local_addr sleep attempt 19 w) busy
