-- ===== src/Retry/Reconnector/Endings.antt =====
-- When `Reconnector.run` (packages/web-sdk/src/core/retry/index.ts) ends by its own limit.
use beam_sdk_public.Common.{
  ℕ, zero, suc, ◌+◌, ◌-◌, ◌≤◌, ◌<◌, max, ◌≡◌, refl, ◌∙◌, ap, true, false, Option, none, some, arith,
}
use beam_sdk_public.Errors.{Thrown}
use beam_sdk_public.Retry.Backoff.{finite, reached}
use beam_sdk_public.Retry.Reconnector.{
  ReconnectState, connecting, connected, reconnecting, Reconnector, new, set_state, mark_connected,
  ReconnectEnv, is_abort, should_retry, Run, again, after_connect, mark_if, run_from, run,
  next_attempt,
}
use beam_sdk_public.Retry.Reconnector.Rounds.{run_from_rule}

set_state-attempt : (s : ReconnectState) (r : Reconnector) → (set_state s r).attempt ≡ r.attempt
unfolding set_state
set_state-attempt s r = ground arith

-- No connection is ever marked as connected.
abbrev pub NeverConnects : ReconnectEnv → Type 0
NeverConnects env = (i : ℕ) → (env.connect i).marks ≡ false

-- The number of connections stays within what `i` connections and an attempt counter leave.
abbrev Ends : ℕ → ℕ → ℕ → Option Run → Type 0
Ends n i attempt o = (x : Run) × (o ≡ some x) × (x.connects ≤ max (suc i) (i + (n - attempt)))

counted :
    (i : ℕ) (env : ReconnectEnv) (r : Reconnector)
    → (env.connect i).marks ≡ false
    → (next_attempt (mark_if (env.connect i).marks r)).attempt ≡ suc r.attempt
unfolding mark_if
counted i env r h = rw h (ap suc (set_state-attempt reconnecting r))

room-below :
    (env : ReconnectEnv) (i n : ℕ) (r : Reconnector)
    → env.max_attempts ≡ finite n
    → (env.connect i).marks ≡ false
    → reached (next_attempt (mark_if (env.connect i).marks r)).attempt env.max_attempts ≡ false
    → suc r.attempt < n
unfolding reached
room-below env i n r limit h room = ground (arith, counted i env r h)

run_from-Ends :
    (fuel : ℕ) (env : ReconnectEnv) (n i : ℕ) (r : Reconnector)
    → env.max_attempts ≡ finite n
    → NeverConnects env
    → n ≤ r.attempt + fuel
    → 0 < fuel
    → Ends n i r.attempt (run_from fuel env i r)
run_from-Ends zero env n i r limit never h p = elim p [ ]
run_from-Ends (suc fuel) env n i r limit never h p =
    run_from_rule (Ends n i r.attempt) env i fuel r (_, refl, omega arith)
      (λ e. (_, refl, omega arith)) (λ e. (_, refl, omega arith))
      λ room.
        let below = room-below env i n r limit (never i) room in
        let (x, e, c) =
          run_from-Ends fuel env n (suc i) (next_attempt (mark_if (env.connect i).marks r)) limit
            never (omega (arith, counted i env r (never i))) (omega arith) in
        (x, e, omega (arith, counted i env r (never i)))

-- A finite limit ends the loop if no connection is ever marked as connected: with as much fuel `run`
-- ends, after at most that many calls of `connect` (one if the limit is 0).
pub run_total :
    (n fuel : ℕ) (env : ReconnectEnv)
    → env.max_attempts ≡ finite n
    → NeverConnects env
    → n ≤ fuel
    → 0 < fuel
    → (x : Run) × (run fuel env new ≡ some x) × (x.connects ≤ max 1 n)
unfolding run new
run_total n fuel env limit never h p =
    let (x, e, c) = run_from-Ends fuel env n 0 _ limit never (omega arith) p in
    (x, e, omega (arith, set_state-attempt connecting new))

-- Every connection is marked as connected, and none ends by an abort or with an error that is not worth
-- another attempt.
pub record ConnectsAndDrops (env : ReconnectEnv) : Type 0 where
  pub marks : (i : ℕ) → (env.connect i).marks ≡ true
  pub no_abort : (i : ℕ) → (env.connect i).aborted ≡ false
  pub no_abort_before : (i : ℕ) → env.aborted_before i ≡ false
  pub no_abort_waiting : (i : ℕ) → env.aborted_waiting i ≡ false
  pub worth :
      (i : ℕ) (e : Thrown)
      → (env.connect i).failure ≡ some e
      → (is_abort e ≡ false) × (should_retry env.custom_should_retry e ≡ true)
  pub room : reached 1 env.max_attempts ≡ false

after_connect-again :
    (env : ReconnectEnv) (i : ℕ) (failure : Option Thrown) (r : Reconnector)
    (continue : Reconnector → Option Run)
    → ((e : Thrown)
        → failure ≡ some e
        → (is_abort e ≡ false) × (should_retry env.custom_should_retry e ≡ true))
    → after_connect env i false failure r continue ≡ again env i failure r continue
unfolding after_connect
after_connect-again env i none r continue h = refl
after_connect-again env i (some e) r continue h = rw ((h e refl).0, (h e refl).1)

again-goes :
    (env : ReconnectEnv) (i : ℕ) (last : Option Thrown) (r : Reconnector)
    (continue : Reconnector → Option Run)
    → ConnectsAndDrops env
    → again env i last (mark_connected r) continue ≡ continue (next_attempt (mark_connected r))
unfolding again
again-goes env i last r continue h = rw (fresh, h.room, h.no_abort_waiting i)
  where
    fresh : (next_attempt (mark_connected r)).attempt ≡ 1
    fresh = ap suc (
        set_state-attempt reconnecting (mark_connected r)
        ∙ unfold mark_connected in set_state-attempt connected (record r { attempt = 0 }))

run_from-none :
    (fuel : ℕ) (env : ReconnectEnv) (i : ℕ) (r : Reconnector)
    → ConnectsAndDrops env
    → run_from fuel env i r ≡ none
unfolding run_from mark_if
run_from-none zero env i r h = refl
run_from-none (suc fuel) env i r h =
    rw (h.no_abort_before i, h.no_abort i, h.marks i)
      (after_connect-again env i (env.connect i).failure (mark_connected r)
          (run_from fuel env (suc i)) (h.worth i)
        ∙ again-goes env i (env.connect i).failure r (run_from fuel env (suc i)) h
        ∙ run_from-none fuel env (suc i) _ h)

-- A loop whose connections are all marked as connected and then drop, cleanly or with an error that is
-- worth another attempt, never ends by a limit above 1: the mark sets the counter back, so no amount of
-- fuel is enough.
pub run_never_ends :
    (fuel : ℕ) (env : ReconnectEnv) → ConnectsAndDrops env → run fuel env new ≡ none
unfolding run
run_never_ends fuel env h = run_from-none fuel env 0 _ h
