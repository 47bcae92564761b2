-- ===== src/Retry/Loop/Results.antt =====
-- `withRetry`, packages/web-sdk/src/core/retry/index.ts: that it ends, and what its result tells.
use mathlib.Core.Option
use native.Mathlib.Decide.{ℕ_discrete}
use beam_sdk_public.Common.{
  ℕ, zero, suc, ◌+◌, ◌≤◌, ◌<◌, max, ◌≡◌, refl, sym, ◌∙◌, ap, ◌⊎◌, ◌≢◌, subst, inl, inr, true, false,
  Option, none, some, arith, length, some_inj,
}
use beam_sdk_public.Errors.{Thrown, beam, abort_error}
use beam_sdk_public.Retry.Backoff.{finite, reached}
use beam_sdk_public.Retry.Loop.{
  Outcome, ok, err, RetryEnv, Report, wait_ms, add_round, with_retry_from, with_retry,
}
use beam_sdk_public.Retry.Loop.Rounds.{
  is_final, Round, aborted, succeeded, failed, interrupted, retried, with_retry_from-Round,
}

ok≢err : {A : Type 0} {a : A} {t : Thrown} → ok a ≢ err t
ok≢err e = cc

err-injective : {A : Type 0} {s t : Thrown} → ◌≡◌ {A = Outcome A} (err s) (err t) → s ≡ t
err-injective e = cc

module _ {A : Type 0} (env : RetryEnv A) where
  abbrev Ends : ℕ → ℕ → Option (Report A) → Type 0
  Ends n attempt o =
      (r : Report A) × (o ≡ some r)
      × (r.calls + attempt ≤ max n (suc attempt))
      × (length r.waits ≤ r.calls)

  Round-Ends :
      (n attempt : ℕ) (rest o : Option (Report A))
      → env.backoff.max_attempts ≡ finite n
      → (suc attempt < n → Ends n (suc attempt) rest)
      → Round env attempt rest o
      → Ends n attempt o
  unfolding reached
  Round-Ends n attempt rest o e ih (aborted b) = (_, refl, omega arith, omega arith)
  Round-Ends n attempt rest o e ih (succeeded a h) = (_, refl, omega arith, omega arith)
  Round-Ends n attempt rest o e ih (failed t h f) = (_, refl, omega arith, omega arith)
  Round-Ends n attempt rest o e ih (interrupted t h f b) = (_, refl, omega arith, omega arith)
  Round-Ends n attempt rest o e ih (retried t h f) =
      let below : suc attempt < n = ground arith in
      let (r, p, c, w) = ih below in
      (
        add_round (wait_ms env t attempt) r,
        ap (Option.map (add_round (wait_ms env t attempt))) p,
        omega arith,
        omega arith,
      )

  total_from :
      (n fuel attempt : ℕ)
      → env.backoff.max_attempts ≡ finite n
      → n ≤ attempt + fuel
      → 0 < fuel
      → Ends n attempt (with_retry_from fuel env attempt)
  total_from n zero attempt e h p = elim p [ ]
  total_from n (suc f) attempt e h p =
      Round-Ends n attempt _ _ e
        (λ below. total_from n f (suc attempt) e (omega arith) (omega arith))
        (with_retry_from-Round env attempt f)

  -- With a finite limit `n` and as much fuel, `withRetry` returns or throws after at most `n` calls of the
  -- operation (one if `n` is 0), and waits at most once for each.
  pub with_retry_total :
      (n fuel : ℕ)
      → env.backoff.max_attempts ≡ finite n
      → n ≤ fuel
      → 0 < fuel
      → (r : Report A) × (with_retry fuel env ≡ some r)
        × (r.calls ≤ max n 1)
        × (length r.waits ≤ r.calls)
  unfolding with_retry
  with_retry_total n fuel e h p =
      let (r, q, c, w) = total_from n fuel 0 e (omega arith) p in (r, q, omega arith, w)

  -- The operation failed at this attempt, and the failure was worth another one.
  abbrev pub Failed : ℕ → Type 0
  Failed j = (t : Thrown) × (env.operation j ≡ err t) × (is_final env j t ≡ false)

  -- The signal fires while this attempt is waited for, or is aborted where the next one begins.
  abbrev pub IsAborted : ℕ → Type 0
  IsAborted j = (env.aborted_waiting j ≡ true) ⊎ (env.aborted_before (suc j) ≡ true)

  -- What the last call of the operation tells of the result.
  abbrev pub Last : ℕ → Outcome A → Type 0
  Last j (ok a) = env.operation j ≡ ok a
  Last j (err t) =
      ((t ≡ beam abort_error) × Failed j × IsAborted j)
      ⊎ ((env.operation j ≡ err t) × (is_final env j t ≡ true))

  -- The signal was aborted before the first round.
  abbrev IsAbort : ℕ → Outcome A → Type 0
  IsAbort attempt o = (o ≡ err (beam abort_error)) × (env.aborted_before attempt ≡ true)

  abbrev Told : ℕ → Report A → Type 0
  Told attempt r =
      ((i : ℕ) → attempt ≤ i → suc i < attempt + r.calls → Failed i)
      × (((r.calls ≡ 0) × IsAbort attempt r.result)
          ⊎ ((k : ℕ) × (attempt + r.calls ≡ suc k) × Last k r.result))

  retried-Told :
      (attempt w : ℕ) (t : Thrown) (r : Report A)
      → env.operation attempt ≡ err t
      → is_final env attempt t ≡ false
      → Told (suc attempt) r
      → Told attempt (add_round w r)
  retried-Told attempt w t r h f (before, last) = (
    earlier,
    elim last [
      | inl (none_left, a) ↦ inr (attempt, omega arith, rw a.0 (inl (refl, (t, h, f), inr a.1)))
      | inr (k, e, l) ↦ inr (k, omega arith, l)
    ],
  )
    where
      earlier : (i : ℕ) → attempt ≤ i → suc i < attempt + suc r.calls → Failed i
      earlier i low high = elim (ℕ_discrete attempt i) [
        | yes e ↦ subst Failed e (t, h, f)
        | no ne ↦ before i (omega arith) (omega arith)
      ]

  Round-Told :
      (attempt : ℕ) (rest o : Option (Report A))
      → ((r : Report A) → rest ≡ some r → Told (suc attempt) r)
      → Round env attempt rest o
      → (r : Report A) → o ≡ some r
      → Told attempt r
  Round-Told attempt rest o ih (aborted b) r e =
      subst (Told attempt) (some_inj e) (λ i low high. absurd (omega arith), inl (refl, (refl, b)))
  Round-Told attempt rest o ih (succeeded a h) r e =
      subst (Told attempt) (some_inj e)
        (λ i low high. absurd (omega arith), inr (attempt, omega arith, h))
  Round-Told attempt rest o ih (failed t h f) r e =
      subst (Told attempt) (some_inj e)
        (λ i low high. absurd (omega arith), inr (attempt, omega arith, inr (h, f)))
  Round-Told attempt rest o ih (interrupted t h f b) r e =
      subst (Told attempt) (some_inj e) (
        λ i low high. absurd (omega arith),
        inr (attempt, omega arith, inl (refl, (t, h, f), inl b)),
      )
  Round-Told attempt none o ih (retried t h f) r e = cc
  Round-Told attempt (some later) o ih (retried t h f) r e =
      subst (Told attempt) (some_inj e)
        (retried-Told attempt (wait_ms env t attempt) t later h f (ih later refl))

  Told-from :
      (fuel attempt : ℕ) (r : Report A) → with_retry_from fuel env attempt ≡ some r → Told attempt r
  unfolding with_retry_from
  Told-from zero attempt r e = cc
  Told-from (suc f) attempt r e =
      Round-Told attempt _ _ (Told-from f (suc attempt)) (with_retry_from-Round env attempt f) r e

  -- A result `ok a` is that of the last call of the operation; every call before it failed, with an
  -- error that was worth another attempt and with attempts left.
  pub with_retry-ok :
      (fuel : ℕ) (r : Report A) (a : A)
      → with_retry fuel env ≡ some r
      → r.result ≡ ok a
      → (k : ℕ) × (r.calls ≡ suc k) × (env.operation k ≡ ok a) × ((i : ℕ) → i < k → Failed i)
  unfolding with_retry
  with_retry-ok fuel r a e h =
      let (before, last) = Told-from fuel 0 r e in
      elim last [
        | inl (z, b) ↦ absurd (ok≢err (sym h ∙ b.0))
        | inr (k, c, l) ↦
            (k, omega arith, subst (Last k) h l, λ i low. before i (omega arith) (omega arith))
      ]

  -- An error that `withRetry` throws is the abort error, and the signal was aborted before the first call; or the
  -- operation was called, all calls before the last failed with an error that was worth another attempt, and it
  -- is the abort error, where the last call failed in that way too and the signal was aborted after it, or it is
  -- the error of the last call, where no attempt was left or the error was not worth one.
  pub with_retry-err :
      (fuel : ℕ) (r : Report A) (t : Thrown)
      → with_retry fuel env ≡ some r
      → r.result ≡ err t
      → ((t ≡ beam abort_error) × (r.calls ≡ 0) × (env.aborted_before 0 ≡ true))
        ⊎ ((k : ℕ) × (r.calls ≡ suc k)
            × ((i : ℕ) → i < k → Failed i)
            × (((t ≡ beam abort_error) × Failed k × IsAborted k)
                ⊎ ((env.operation k ≡ err t) × (is_final env k t ≡ true))))
  unfolding with_retry
  with_retry-err fuel r t e h =
      let (before, last) = Told-from fuel 0 r e in
      elim last [
        | inl (z, b) ↦ inl (err-injective (sym h ∙ b.0), z, b.1)
        | inr (k, c, l) ↦
            inr (k, omega arith, λ i low. before i (omega arith) (omega arith), subst (Last k) h l)
      ]
