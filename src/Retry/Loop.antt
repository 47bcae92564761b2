-- ===== src/Retry/Loop.antt =====
-- packages/web-sdk/src/core/retry/index.ts: `withRetry`. The operation, the random numbers and the abort
-- signal are functions of the attempt at which they are asked. Fuel counts the rounds of `for (;;)`.
pub mod Rounds
pub mod Results
use mathlib.Core.Option
use beam_sdk_public.Common.{
  ℕ, zero, suc, ◌+◌, ◌*◌, ◌≤◌, ◌<◌, ◌≡◌, Bool, true, false, ◌||◌, ◌&&◌, not, Option, none, some,
  List, [], ◌∷◌, if◌then◌else◌,
}
use beam_sdk_public.Errors.{BeamError, Thrown, beam, other, abort_error}
use beam_sdk_public.Retry.Backoff.{Limit, reached, Sample, BackoffOptions, backoff_delay}

pub data Outcome {ℓ} (A : Type ℓ) : Type ℓ where
  ok : A → Outcome A
  err : Thrown → Outcome A

pub record RetryEnv (A : Type 0) : Type 0 where
  pub backoff : BackoffOptions
  pub custom_should_retry : Option (Thrown → ℕ → Bool)
  pub operation : ℕ → Outcome A
  pub sample : ℕ → Sample
  -- `signal.aborted` where the round of that attempt begins.
  pub aborted_before : ℕ → Bool
  -- The signal fires before the wait after that attempt is over.
  pub aborted_waiting : ℕ → Bool

-- What a run leaves: its result, the number of calls of the operation, and the waits of `onRetry`.
pub record Report (A : Type 0) : Type 0 where
  pub result : Outcome A
  pub calls : ℕ
  pub waits : List ℕ

unfoldable pub default_should_retry : Thrown → Bool
default_should_retry (beam e) = e.retryable
default_should_retry (other t) = false

choose : Option (Thrown → ℕ → Bool) → Thrown → ℕ → Bool
choose none e attempt = default_should_retry e
choose (some f) e attempt = f e attempt

unfoldable pub should_retry : {A : Type 0} → RetryEnv A → Thrown → ℕ → Bool
unfolding choose default_should_retry
should_retry env e attempt = choose env.custom_should_retry e attempt

-- `error.retryAfterSeconds`, of a `BeamError`.
unfoldable pub retry_after : Thrown → Option ℕ
retry_after (beam e) = e.retry_after_seconds
retry_after (other t) = none

-- A server-supplied `Retry-After` overrides the computed delay.
unfoldable pub wait_ms : {A : Type 0} → RetryEnv A → Thrown → ℕ → ℕ
unfolding retry_after
wait_ms env e attempt = elim (retry_after e) [
  | some s ↦ s * 1000
  | none ↦ backoff_delay attempt env.backoff (env.sample attempt)
]

abbrev add_round : {A : Type 0} → ℕ → Report A → Report A
add_round w r = record r { calls = suc r.calls; waits = w ∷ r.waits }

-- The `catch` block, with `attempt` already raised to `suc attempt`.
after_failure : {A : Type 0} → RetryEnv A → ℕ → Thrown → Option (Report A) → Option (Report A)
unfolding reached should_retry
after_failure env attempt e rest =
    if reached (suc attempt) env.backoff.max_attempts || not (should_retry env e (suc attempt))
    then some (record { result = err e; calls = 1; waits = [] })
    else if env.aborted_waiting attempt
    then some
        (record { result = err (beam abort_error); calls = 1; waits = wait_ms env e attempt ∷ [] })
    else Option.map (add_round (wait_ms env e attempt)) rest

after_operation : {A : Type 0} → RetryEnv A → ℕ → Outcome A → Option (Report A) → Option (Report A)
unfolding after_failure
after_operation env attempt (ok a) rest = some (record { result = ok a; calls = 1; waits = [] })
after_operation env attempt (err e) rest = after_failure env attempt e rest

unfoldable pub with_retry_from : {A : Type 0} → ℕ → RetryEnv A → ℕ → Option (Report A)
unfolding after_operation
with_retry_from zero env attempt = none
with_retry_from (suc fuel) env attempt =
    let rest = with_retry_from fuel env (suc attempt) in
    if env.aborted_before attempt
    then some (record { result = err (beam abort_error); calls = 0; waits = [] })
    else after_operation env attempt (env.operation attempt) rest

unfoldable pub with_retry : {A : Type 0} → ℕ → RetryEnv A → Option (Report A)
unfolding with_retry_from
with_retry fuel env = with_retry_from fuel env 0
