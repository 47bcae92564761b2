-- ===== src/Events/Emitter/Delivery.antt =====
-- Whom `emit` of packages/web-sdk/src/core/events/index.ts calls.
use mathlib.Core.List.{append-nil, append_assoc}
use beam_sdk_public.Common.{
  ℕ, ◌≡◌, refl, sym, ap, ◌∙◌, false, List, [], ◌∷◌, ◌++◌, map, if◌then◌else◌, Text, text_eq,
  text_eq_refl,
}
use beam_sdk_public.Events.Emitter.{
  Listener, once_of, same, has, delete, Emitter, Behaviour, Dispatch, function_of, listeners_of,
  off, before_call, call, call_each, emit,
}
use beam_sdk_public.Events.Emitter.Registry.{
  IsRegistry, listeners_of-off_entries, delete_self, delete_other, listeners_of-Distinct,
}

abbrev pub heard : {A : Type 0} → A → Listener → ℕ × A
heard payload l = (function_of l, payload)

call-calls :
    {A : Type 0} (b : Behaviour A) (event : Text) (payload : A) (l : Listener) (d : Dispatch A)
    → (call b event payload l d).calls ≡ d.calls ++ heard payload l ∷ []
unfolding call
call-calls b event payload l d = refl

call_each-calls :
    {A : Type 0} (b : Behaviour A) (event : Text) (payload : A) (ls : List Listener)
    (d : Dispatch A)
    → (call_each b event payload ls d).calls ≡ d.calls ++ map (heard payload) ls
unfolding call_each
call_each-calls b event payload [] d = sym (append-nil d.calls)
call_each-calls b event payload (l ∷ ls) d =
    call_each-calls b event payload ls (call b event payload l d)
    ∙ ap (λ c. c ++ map (heard payload) ls) (call-calls b event payload l d)
    ∙ append_assoc d.calls _ _

-- `emit` calls the listeners that the event had when it was called, each once, in the order in which they
-- were added, whatever they throw and whatever they add or remove.
pub emit-calls :
    {A : Type 0} (b : Behaviour A) (event : Text) (payload : A) (e : Emitter)
    → (emit b event payload e).calls ≡ map (heard payload) (listeners_of event e.listeners)
unfolding emit
emit-calls b event payload e = call_each-calls b event payload (listeners_of event e.listeners) _

-- Before the function of a `once` wrapper runs, the wrapper is off its event, so that no emit that starts
-- then, from that function or later, calls it again; every other listener of the event stays, and so do
-- those of the other events.
pub before_call-once :
    (event key : Text) (i f : ℕ) (e : Emitter) (x : Listener)
    → IsRegistry e.listeners
    → let after = (before_call event (once_of i f) e).listeners in
      (has (once_of i f) (listeners_of event after) ≡ false)
      × (same (once_of i f) x ≡ false
          → has x (listeners_of event after) ≡ has x (listeners_of event e.listeners))
      × (text_eq event key ≡ false → listeners_of key after ≡ listeners_of key e.listeners)
unfolding before_call off
before_call-once event key i f e x r =
    let w = once_of i f in
    let here =
      listeners_of-off_entries event event w e.listeners r
      ∙ ap
          (λ t.
            if t then delete w (listeners_of event e.listeners) else listeners_of event e.listeners)
          (text_eq_refl event) in
    (
      ap (has w) here
          ∙ delete_self w (listeners_of event e.listeners)
              (listeners_of-Distinct event e.listeners r),
      λ n. ap (has x) here ∙ delete_other w x (listeners_of event e.listeners) n,
      λ n.
          listeners_of-off_entries event key w e.listeners r
          ∙ ap
              (λ t.
                if t then delete w (listeners_of key e.listeners) else listeners_of key e.listeners)
              n,
    )
