-- ===== src/Retry/Loop/Rounds.antt =====
-- One round of `withRetry`, packages/web-sdk/src/core/retry/index.ts, as a relation.
use mathlib.Core.Option
use beam_sdk_public.Common.{
  ℕ, suc, ◌≡◌, refl, inl, inr, Bool, true, false, ◌||◌, not, Option, some, [], ◌∷◌, Bool-cases,
}
use beam_sdk_public.Errors.{Thrown, beam, abort_error}
use beam_sdk_public.Retry.Backoff.{reached}
use beam_sdk_public.Retry.Loop.{
  Outcome, ok, err, RetryEnv, Report, should_retry, wait_ms, add_round, after_failure,
  after_operation, with_retry_from,
}

module _ {A : Type 0} (env : RetryEnv A) (attempt : ℕ) where
  -- No attempt is left, or the error is not worth one.
  abbrev pub is_final : Thrown → Bool
  is_final e =
      reached (suc attempt) env.backoff.max_attempts || not (should_retry env e (suc attempt))

  -- How a round ends, given the run of the later rounds.
  pub data Round (rest : Option (Report A)) : Option (Report A) → Type 0 where
    aborted :
        env.aborted_before attempt ≡ true
        → Round rest (some (record { result = err (beam abort_error); calls = 0; waits = [] }))
    succeeded :
        (a : A)
        → env.operation attempt ≡ ok a
        → Round rest (some (record { result = ok a; calls = 1; waits = [] }))
    failed :
        (e : Thrown)
        → env.operation attempt ≡ err e
        → is_final e ≡ true
        → Round rest (some (record { result = err e; calls = 1; waits = [] }))
    interrupted :
        (e : Thrown)
        → env.operation attempt ≡ err e
        → is_final e ≡ false
        → env.aborted_waiting attempt ≡ true
        → Round rest (
            some (record {
              result = err (beam abort_error);
              calls = 1;
              waits = wait_ms env e attempt ∷ [];
            }))
    retried :
        (e : Thrown)
        → env.operation attempt ≡ err e
        → is_final e ≡ false
        → Round rest (Option.map (add_round (wait_ms env e attempt)) rest)

  failure-Round :
      (rest : Option (Report A)) (e : Thrown)
      → env.operation attempt ≡ err e
      → Round rest (after_failure env attempt e rest)
  unfolding after_failure
  failure-Round rest e h = elim (Bool-cases (is_final e)) [
    | inl f ↦ rw f (failed e h f)
    | inr f ↦ rw f (elim (Bool-cases (env.aborted_waiting attempt)) [
      | inl w ↦ rw w (interrupted e h f w)
      | inr w ↦ rw w (retried e h f)
    ])
  ]

  operation-Round :
      (rest : Option (Report A)) (o : Outcome A)
      → env.operation attempt ≡ o
      → Round rest (after_operation env attempt o rest)
  unfolding after_operation
  operation-Round rest (ok a) h = succeeded a h
  operation-Round rest (err e) h = failure-Round rest e h

  pub with_retry_from-Round :
      (fuel : ℕ)
      → Round (with_retry_from fuel env (suc attempt)) (with_retry_from (suc fuel) env attempt)
  unfolding with_retry_from
  with_retry_from-Round fuel = elim (Bool-cases (env.aborted_before attempt)) [
    | inl b ↦ rw b (aborted b)
    | inr b ↦ rw b (operation-Round _ (env.operation attempt) refl)
  ]
