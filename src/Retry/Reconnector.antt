-- ===== src/Retry/Reconnector.antt =====
-- packages/web-sdk/src/core/retry/index.ts: the class `Reconnector`. What each call of `connect` does, and
-- when the signal fires, are functions of the round. `delay` and `whenOnline` are one wait, which is over
-- or is aborted. The calls of `onStateChange` are listed latest first.
pub mod Rounds
pub mod Changes
pub mod Endings
use beam_sdk_public.Common.{
  ℕ, zero, suc, ◌≡◌, Bool, true, false, ◌||◌, ◌&&◌, not, Option, none, some, List, [], ◌∷◌,
  if◌then◌else◌,
}
use beam_sdk_public.Errors.{
  BeamError, ErrorClass, base, config_class, auth_class, api_class, network_class, timeout_class,
  abort_class, unsupported_class, Thrown, beam, other,
}
use beam_sdk_public.Retry.Backoff.{Limit, reached, Sample, BackoffOptions, backoff_delay}

pub data ReconnectState : Type 0 where
  connecting connected reconnecting closed : ReconnectState

pub record Reconnector : Type 0 where
  pub state : ReconnectState
  pub attempt : ℕ
  pub changes : List ReconnectState

unfoldable pub new : Reconnector
new = record { state = closed; attempt = 0; changes = [] }

unfoldable pub same_state : ReconnectState → ReconnectState → Bool
same_state connecting connecting = true
same_state connected connected = true
same_state reconnecting reconnecting = true
same_state closed closed = true
same_state _ _ = false

unfoldable pub set_state : ReconnectState → Reconnector → Reconnector
unfolding same_state
set_state s r = if same_state r.state s then r else record r { state = s; changes = s ∷ r.changes }

unfoldable pub mark_connected : Reconnector → Reconnector
unfolding set_state
mark_connected r = set_state connected (record r { attempt = 0 })

pub record Connection : Type 0 where
  -- Whether `connect` calls `markConnected`.
  pub marks : Bool
  -- What it rejects with; `none` for a clean close.
  pub failure : Option Thrown
  -- `signal.aborted` when it is over.
  pub aborted : Bool

pub record ReconnectEnv : Type 0 where
  pub max_attempts : Limit
  pub custom_should_retry : Option (Thrown → Bool)
  pub connect : ℕ → Connection
  pub aborted_before : ℕ → Bool
  pub aborted_waiting : ℕ → Bool

is_abort_class : ErrorClass → Bool
is_abort_class abort_class = true
is_abort_class _ = false

-- `error instanceof BeamAbortError`.
unfoldable pub is_abort : Thrown → Bool
unfolding is_abort_class
is_abort (beam e) = is_abort_class e.class
is_abort (other t) = false

default_should_retry : Thrown → Bool
default_should_retry (beam e) = e.retryable
default_should_retry (other t) = true

unfoldable pub should_retry : Option (Thrown → Bool) → Thrown → Bool
unfolding default_should_retry
should_retry none e = default_should_retry e
should_retry (some f) e = f e

-- `run` resolves, or rejects with the last error.
pub data Ending : Type 0 where
  stopped : Ending
  gave_up : Thrown → Ending

pub record Run : Type 0 where
  pub ending : Ending
  pub final : Reconnector
  -- The number of calls of `connect`.
  pub connects : ℕ

-- The `finally` block.
abbrev pub finish : Ending → ℕ → Reconnector → Option Run
finish e n r = some (record { ending = e; final = set_state closed r; connects = n })

give_up : Option Thrown → Ending
give_up none = stopped
give_up (some e) = gave_up e

-- The state between two connections.
abbrev pub next_attempt : Reconnector → Reconnector
next_attempt r = let r' = set_state reconnecting r in record r' { attempt = suc r'.attempt }

-- After the `catch`: back off, count the attempt, and stop at the limit.
again : ReconnectEnv → ℕ → Option Thrown → Reconnector → (Reconnector → Option Run) → Option Run
unfolding reached give_up
again env i last r continue =
    let next = next_attempt r in
    if reached next.attempt env.max_attempts
    then finish (give_up last) (suc i) next
    else if env.aborted_waiting i
    then finish stopped (suc i) next
    else continue next

after_connect :
    ReconnectEnv → ℕ → Bool → Option Thrown → Reconnector → (Reconnector → Option Run) → Option Run
unfolding again is_abort should_retry
after_connect env i aborted none r continue =
    if aborted then finish stopped (suc i) r else again env i none r continue
after_connect env i aborted (some e) r continue =
    if aborted || is_abort e
    then finish stopped (suc i) r
    else if should_retry env.custom_should_retry e
    then again env i (some e) r continue
    else finish (gave_up e) (suc i) r

pub mark_if : Bool → Reconnector → Reconnector
unfolding mark_connected
mark_if true r = mark_connected r
mark_if false r = r

-- `i` counts the calls of `connect`; fuel counts the rounds of `for (;;)`.
unfoldable pub run_from : ℕ → ReconnectEnv → ℕ → Reconnector → Option Run
unfolding after_connect mark_if
run_from zero env i r = none
run_from (suc fuel) env i r =
    let c = env.connect i in
    let next =
      after_connect env i c.aborted c.failure (mark_if c.marks r) (run_from fuel env (suc i)) in
    if env.aborted_before i then finish stopped i r else next

unfoldable pub run : ℕ → ReconnectEnv → Reconnector → Option Run
unfolding run_from
run fuel env r = run_from fuel env 0 (set_state connecting r)
