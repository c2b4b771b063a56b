-- ===== src/Ha/Runtime/Timers.antt =====
-- The timers of the HA loop of src/gruezi/ha.rs, for the values that the validation admits.
use native.Mathlib.Nat.{mod-lt, mod-eq_of_lt, mul-le-mul_left}
use gruezi.Base.{ℕ, ◌+◌, ◌-◌, ◌*◌, ◌%◌, ◌^◌, ◌≤◌, ◌<◌, arith, Bool-cases, inl, inr, ◌==◌}
use gruezi.Base.Duration.{from_millis}
use gruezi.Base.Word.{IsU64}
use gruezi.Ha.Runtime.{
  HaRuntimeConfig, advert_interval, next_advert_delay, jitter_for, follower_deadline,
}

-- The jitter is at most the one configured.
jitter-le :
    (r : HaRuntimeConfig) (sequence : ℕ)
    → r.jitter_ms + 1 < 2 ^ 64
    → jitter_for r sequence ≤ from_millis r.jitter_ms
unfolding jitter_for
jitter-le r sequence u = elim (Bool-cases (r.jitter_ms == 0)) [
  | inl e ↦ rw e (omega arith)
  | inr e ↦
      rw (e, mod-eq_of_lt u)
        (let lt : sequence % (r.jitter_ms + 1) < r.jitter_ms + 1 = mod-lt sequence (omega arith) in
          omega arith)
]

-- For an interval that is a u64 and a jitter below it, every delay before an advertisement is
-- positive, at most the interval, and at least the interval less the jitter.
pub next_advert_delay_bounds :
    (r : HaRuntimeConfig) (sequence : ℕ)
    → IsU64 r.advert_interval_ms
    → r.jitter_ms < r.advert_interval_ms
    → (0 < next_advert_delay r sequence)
      × (from_millis (r.advert_interval_ms - r.jitter_ms) ≤ next_advert_delay r sequence)
      × (next_advert_delay r sequence ≤ advert_interval r)
unfolding next_advert_delay
next_advert_delay_bounds r sequence u lt =
    let le : jitter_for r sequence ≤ from_millis r.jitter_ms = jitter-le r sequence (omega arith) in
    (omega arith, omega arith, omega arith)

-- For an interval that is a u64 and a dead factor of at least 2, the deadline of a peer lies at
-- least two intervals after it was last seen, so that one lost advertisement does not end it.
pub dead_timeout-ge :
    (r : HaRuntimeConfig) (t now : ℕ)
    → IsU64 r.advert_interval_ms
    → 2 ≤ r.dead_factor
    → now < t + 2 * advert_interval r
    → now < follower_deadline r t
unfolding follower_deadline
dead_timeout-ge r t now u two lt =
    let le : advert_interval r * 2 ≤ advert_interval r * r.dead_factor =
      mul-le-mul_left (advert_interval r) two in
    omega arith
