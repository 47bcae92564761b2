-- ===== src/Retry/Reconnector/Rounds.antt =====
-- One round of `Reconnector.run`, packages/web-sdk/src/core/retry/index.ts, as a rule for predicates.
use beam_sdk_public.Common.{
  ℕ, suc, ◌≡◌, Bool, true, false, Option, none, some, ◌||◌, if◌then◌else◌, Bool-cases, inl, inr,
}
use beam_sdk_public.Errors.{Thrown}
use beam_sdk_public.Retry.Backoff.{reached}
use beam_sdk_public.Retry.Reconnector.{
  Reconnector, ReconnectEnv, Ending, stopped, Run, should_retry, is_abort, gave_up, give_up, finish,
  next_attempt, again, after_connect, mark_if, run_from,
}

module _ (Q : Option Run → Type 0) where
  if_rule :
      (b : Bool) (u v : Option Run) → (b ≡ true → Q u) → (b ≡ false → Q v) → Q (if b then u else v)
  if_rule b u v p q = elim (Bool-cases b) [ inl h ↦ rw h (p h) | inr h ↦ rw h (q h) ]

  module _ (env : ReconnectEnv) (i : ℕ) where
    again_rule :
        (last : Option Thrown) (r : Reconnector) (continue : Reconnector → Option Run)
        → ((e : Ending) → Q (finish e (suc i) (next_attempt r)))
        → (reached (next_attempt r).attempt env.max_attempts ≡ false
            → Q (continue (next_attempt r)))
        → Q (again env i last r continue)
    unfolding again
    again_rule last r continue ends goes =
        if_rule (reached (next_attempt r).attempt env.max_attempts) _ _ (λ b. ends (give_up last))
          (λ room. if_rule (env.aborted_waiting i) _ _ (λ b. ends stopped) (λ b. goes room))

    after_connect_rule :
        (aborted : Bool) (failure : Option Thrown) (r : Reconnector)
        (continue : Reconnector → Option Run)
        → ((e : Ending) → Q (finish e (suc i) r))
        → ((e : Ending) → Q (finish e (suc i) (next_attempt r)))
        → (reached (next_attempt r).attempt env.max_attempts ≡ false
            → Q (continue (next_attempt r)))
        → Q (after_connect env i aborted failure r continue)
    unfolding after_connect
    after_connect_rule aborted none r continue stops ends goes =
        if_rule aborted _ _ (λ b. stops stopped) (λ b. again_rule none r continue ends goes)
    after_connect_rule aborted (some t) r continue stops ends goes =
        if_rule (aborted || is_abort t) _ _ (λ b. stops stopped)
          (λ b.
            if_rule (should_retry env.custom_should_retry t) _ _
              (λ w. again_rule (some t) r continue ends goes) (λ w. stops (gave_up t)))

    -- A round stops before or after its connection, or goes on to the next one within the limit.
    pub run_from_rule :
        (fuel : ℕ) (r : Reconnector)
        → let marked = mark_if (env.connect i).marks r in
          Q (finish stopped i r)
          → ((e : Ending) → Q (finish e (suc i) marked))
          → ((e : Ending) → Q (finish e (suc i) (next_attempt marked)))
          → (reached (next_attempt marked).attempt env.max_attempts ≡ false
              → Q (run_from fuel env (suc i) (next_attempt marked)))
          → Q (run_from (suc fuel) env i r)
    unfolding run_from
    run_from_rule fuel r before stops ends goes =
        if_rule (env.aborted_before i) _ _ (λ b. before)
          (λ b.
            after_connect_rule (env.connect i).aborted (env.connect i).failure _ _ stops ends goes)
