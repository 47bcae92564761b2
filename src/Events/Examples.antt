-- ===== src/Events/Examples.antt =====
-- The theorems about packages/web-sdk/src/core/events/index.ts at concrete inputs.
use beam_sdk_public.Common.{
  ℕ, zero, suc, ◌≡◌, refl, true, false, none, List, [], ◌∷◌, ◌++◌, map, codes, Text, text_eq,
  if◌then◌else◌,
}
use beam_sdk_public.Events.Emitter.{
  direct, once_of, has, delete, Emitter, Behaviour, listeners_of, off_entries, off, emit,
}
use beam_sdk_public.Events.Emitter.Registry.{IsRegistry, listeners_of-off_entries}
use beam_sdk_public.Events.Emitter.Delivery.{heard, emit-calls}
use beam_sdk_public.Events.Iterator.{
  Iterator, value, dropped, ended, start, push, Action, pushes, nexts, returns, run, step, next,
  finish,
}
use beam_sdk_public.Events.Iterator.Queueing.{start-Inv, items, accepted, run-queue}

abbrev tick : Text
tick = codes "tick"

abbrev emitter : Emitter
emitter = record { listeners = (tick, direct 1 ∷ once_of 0 2 ∷ direct 3 ∷ []) ∷ []; wrappers = 1 }

emitter-IsRegistry : IsRegistry emitter.listeners
unfolding has
emitter-IsRegistry = ((λ e. cc), (refl, (refl, (refl, tt))), tt, tt)

-- Function 1 takes function 3 off the event, and throws.
abbrev rude : Behaviour ℕ
rude (suc zero) n e = (off tick (direct 3) e, true)
rude f n e = (e, false)

emit-calls_example :
    (emit rude tick 5 emitter).calls ≡ map (heard 5) (listeners_of tick emitter.listeners)
emit-calls_example = emit-calls rude tick 5 emitter

emitted : (emit rude tick 5 emitter).calls ≡ (1, 5) ∷ (2, 5) ∷ (3, 5) ∷ []
unfolding emit listeners_of text_eq
emitted = refl

listeners_of-off_entries_example :
    listeners_of tick (off_entries tick (direct 1) emitter.listeners) ≡ (
      if text_eq tick tick
      then delete (direct 1) (listeners_of tick emitter.listeners)
      else listeners_of tick emitter.listeners)
listeners_of-off_entries_example =
    listeners_of-off_entries tick tick (direct 1) emitter.listeners emitter-IsRegistry

abbrev progress : List (Action ℕ)
progress =
    nexts ∷ pushes 1 ∷ pushes 2 ∷ pushes 3 ∷ pushes 4 ∷ nexts ∷ returns ∷ pushes 5 ∷ nexts ∷ []

progress-run : (run 2 progress start).1 ≡ value 1 ∷ dropped 2 ∷ value 3 ∷ ended ∷ value 4 ∷ []
unfolding run start step next push finish
progress-run = refl

run-queue_example :
    items (run 2 progress start).1 ++ (run 2 progress start).0.buffer
    ≡ (start {A = ℕ}).buffer ++ accepted 2 progress start
run-queue_example = run-queue 2 progress start (start-Inv 2)

abbrev full : Iterator ℕ
full = record { buffer = 1 ∷ 2 ∷ []; waiters = []; done = false; failure = none; promises = 0 }
