-- ===== src/Events/Iterator.antt =====
-- packages/web-sdk/src/core/events/index.ts: `eventsToAsyncIterable`. A promise that `next` returns
-- unresolved is known by its number; a step tells which values it hands to the consumer and which it
-- drops. The abort of the signal and the end of `until` are calls of `finish`.
pub mod Queueing
use beam_sdk_public.Common.{
  ℕ, zero, suc, ◌+◌, ◌≤◌, ◌≡◌, Bool, true, false, Option, none, some, List, [], ◌∷◌, ◌++◌,
  if◌then◌else◌, leb, length,
}
use beam_sdk_public.Errors.{Thrown}

pub record Iterator (A : Type 0) : Type 0 where
  pub buffer : List A
  pub waiters : List ℕ
  pub done : Bool
  pub failure : Option Thrown
  pub promises : ℕ

pub data Delivery (A : Type 0) : Type 0 where
  -- A value that a promise is resolved with.
  value : A → Delivery A
  -- A value that is shifted out of a full buffer.
  dropped : A → Delivery A
  -- A promise that is resolved with `done: true`, or rejected.
  ended : Delivery A
  failed : Thrown → Delivery A

unfoldable pub start : {A : Type 0} → Iterator A
start = record { buffer = []; waiters = []; done = false; failure = none; promises = 0 }

-- `if (buffer.length >= maxBuffer) buffer.shift(); buffer.push(payload)`.
shift_in : {A : Type 0} → ℕ → A → List A → Iterator A → Iterator A × List (Delivery A)
shift_in max_buffer a [] s = (record s { buffer = a ∷ [] }, [])
shift_in max_buffer a (b ∷ bs) s =
    if leb max_buffer (length (b ∷ bs))
    then (record s { buffer = bs ++ a ∷ [] }, dropped b ∷ [])
    else (record s { buffer = b ∷ bs ++ a ∷ [] }, [])

push_open : {A : Type 0} → ℕ → A → List ℕ → Iterator A → Iterator A × List (Delivery A)
unfolding shift_in
push_open max_buffer a (w ∷ ws) s = (record s { waiters = ws }, value a ∷ [])
push_open max_buffer a [] s = shift_in max_buffer a s.buffer s

unfoldable pub push : {A : Type 0} → ℕ → A → Iterator A → Iterator A × List (Delivery A)
unfolding push_open
push max_buffer a s = if s.done then (s, []) else push_open max_buffer a s.waiters s

abbrev end_each : {A : Type 0} → List ℕ → List (Delivery A)
end_each [] = []
end_each (w ∷ ws) = ended ∷ end_each ws

unfoldable pub finish : {A : Type 0} → Option Thrown → Iterator A → Iterator A × List (Delivery A)
finish error s =
    if s.done
    then (s, [])
    else (record s { done = true; failure = error; waiters = [] }, end_each s.waiters)

ending : {A : Type 0} → Option Thrown → Delivery A
ending none = ended
ending (some e) = failed e

next_from : {A : Type 0} → List A → Iterator A → Iterator A × List (Delivery A)
unfolding ending
next_from (a ∷ as') s = (record s { buffer = as' }, value a ∷ [])
next_from [] s =
    if s.done
    then (s, ending s.failure ∷ [])
    else (record s { waiters = s.waiters ++ s.promises ∷ []; promises = suc s.promises }, [])

unfoldable pub next : {A : Type 0} → Iterator A → Iterator A × List (Delivery A)
unfolding next_from
next s = next_from s.buffer s

pub data Action (A : Type 0) : Type 0 where
  pushes : A → Action A
  finishes : Option Thrown → Action A
  nexts : Action A
  -- `return()` and `throw(error)` of the iterator.
  returns : Action A
  throws : Thrown → Action A

also : {A : Type 0} → Iterator A × List (Delivery A) → Delivery A → Iterator A × List (Delivery A)
also (s, ds) d = (s, ds ++ d ∷ [])

unfoldable pub step : {A : Type 0} → ℕ → Action A → Iterator A → Iterator A × List (Delivery A)
unfolding also
step max_buffer (pushes a) s = push max_buffer a s
step max_buffer (finishes e) s = finish e s
step max_buffer nexts s = next s
step max_buffer returns s = also (finish none s) ended
step max_buffer (throws e) s = also (finish (some e) s) (failed e)

unfoldable pub run :
    {A : Type 0} → ℕ → List (Action A) → Iterator A → Iterator A × List (Delivery A)
run max_buffer [] s = (s, [])
run max_buffer (a ∷ as') s =
    let (s', ds) = step max_buffer a s in
    let (s'', rest) = run max_buffer as' s' in (s'', ds ++ rest)
