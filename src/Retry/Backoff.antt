-- ===== src/Retry/Backoff.antt =====
-- packages/web-sdk/src/core/retry/index.ts: `BackoffOptions`, `DEFAULTS`, `backoffDelay`. Delays are whole
-- milliseconds and the factor is a whole number; `random()` is the fraction `num / den`.
use native.Mathlib.Nat.{
  mul_comm, mul-le-mul_right, mul-lt-mul_of_pos_right, div-lt_iff_lt-mul, div-le_of_le-mul,
}
use beam_sdk_public.Common.{ℕ, ◌*◌, ◌/◌, ◌^◌, ◌≤◌, ◌<◌, min, Bool, false, arith, leb}

-- `maxAttempts`: a number, or `Infinity`.
pub data Limit : Type 0 where
  finite : ℕ → Limit
  unlimited : Limit

-- `attempt >= maxAttempts`.
unfoldable pub reached : ℕ → Limit → Bool
reached n (finite m) = leb m n
reached n unlimited = false

pub record Sample : Type 0 where
  pub num : ℕ
  pub den : ℕ

abbrev pub IsSample : Sample → Type 0
IsSample r = r.num < r.den

pub record BackoffOptions : Type 0 where
  pub initial_delay_ms : ℕ
  pub max_delay_ms : ℕ
  pub factor : ℕ
  pub max_attempts : Limit

abbrev pub defaults : BackoffOptions
defaults = record {
  initial_delay_ms = 500;
  max_delay_ms = 30000;
  factor = 2;
  max_attempts = finite 4;
}

abbrev pub ceiling : ℕ → BackoffOptions → ℕ
ceiling attempt o = min o.max_delay_ms (o.initial_delay_ms * o.factor ^ attempt)

unfoldable pub backoff_delay : ℕ → BackoffOptions → Sample → ℕ
backoff_delay attempt o r = r.num * ceiling attempt o / r.den

scaled-le : (n d c : ℕ) → n ≤ d → n * c / d ≤ c
scaled-le n d c h = div-le_of_le-mul d (mul-le-mul_right c h)

scaled-lt : (n d c : ℕ) → n < d → 0 < c → n * c / d < c
scaled-lt n d c h p =
    (div-lt_iff_lt-mul {k = d} {x = n * c} {y = c} (omega arith)).1
      (rw (mul_comm c d) (mul-lt-mul_of_pos_right h p))

-- Full jitter: the delay lies under the ceiling of its attempt and so under the largest delay, and is
-- 0 if the ceiling is.
pub backoff_delay-lt-ceiling :
    (attempt : ℕ) (o : BackoffOptions) (r : Sample)
    → IsSample r
    → (backoff_delay attempt o r ≤ o.max_delay_ms)
      × (backoff_delay attempt o r ≤ o.initial_delay_ms * o.factor ^ attempt)
      × (0 < ceiling attempt o → backoff_delay attempt o r < ceiling attempt o)
unfolding backoff_delay
backoff_delay-lt-ceiling attempt o r h = (
  omega (arith, scaled-le r.num r.den (ceiling attempt o) (omega arith)),
  omega (arith, scaled-le r.num r.den (ceiling attempt o) (omega arith)),
  scaled-lt r.num r.den (ceiling attempt o) h,
)
