-- ===== src/Base/Duration.antt =====
-- `std::time`: a `Duration` and an `Instant` as a number of nanoseconds.
use gruezi.Base.{ℕ, ◌+◌, ◌-◌, ◌*◌, ◌/◌, min}
use gruezi.Base.Word.{u64_max}

abbrev pub ms : ℕ
ms = 1_000_000

-- `Duration::MAX`: seconds are a u64.
abbrev pub duration_max : ℕ
duration_max = u64_max * 1_000_000_000 + 999_999_999

-- `Duration::from_millis`
abbrev pub from_millis : ℕ → ℕ
from_millis n = n * ms

-- `Duration::saturating_mul`
abbrev pub saturating_mul : ℕ → ℕ → ℕ
saturating_mul d k = min (d * k) duration_max

-- `Duration::as_millis`
abbrev pub as_millis : ℕ → ℕ
as_millis d = d / ms

-- `duration_millis_u64`: `u64::try_from(..).unwrap_or(u64::MAX)`
unfoldable pub duration_millis_u64 : ℕ → ℕ
duration_millis_u64 d = min (as_millis d) u64_max

-- `saturating_elapsed_ms`: `saturating_duration_since` is 0 for a later instant.
unfoldable pub saturating_elapsed_ms : ℕ → ℕ → ℕ
unfolding duration_millis_u64
saturating_elapsed_ms now observed_at = duration_millis_u64 (now - observed_at)
