-- ===== src/Events/Emitter.antt =====
-- packages/web-sdk/src/core/events/index.ts: `EventEmitter`. A listener is known by the function it calls
-- and, when `once` wraps it, by the number of the wrapper, since each call of `once` makes a new closure.
-- A `Map` of `Set`s is a list of keys with lists, in the order of insertion.
pub mod Registry
pub mod Delivery
use beam_sdk_public.Common.{
  ℕ, zero, suc, ◌+◌, ◌≡◌, Bool, true, false, ◌||◌, ◌&&◌, not, Option, none, some, List, [], ◌∷◌,
  ◌++◌, if◌then◌else◌, ◌==◌, Text, text_eq, length,
}

pub data Listener : Type 0 where
  direct : ℕ → Listener
  once_of : ℕ → ℕ → Listener

unfoldable pub same : Listener → Listener → Bool
same (direct f) (direct g) = f == g
same (once_of i f) (once_of j g) = (i == j) && (f == g)
same _ _ = false

abbrev pub function_of : Listener → ℕ
function_of (direct f) = f
function_of (once_of i f) = f

unfoldable pub has : Listener → List Listener → Bool
unfolding same
has l [] = false
has l (x ∷ xs) = same x l || has l xs

-- `Set.prototype.add` and `Set.prototype.delete`.
unfoldable pub add : Listener → List Listener → List Listener
unfolding has
add l xs = if has l xs then xs else xs ++ l ∷ []

unfoldable pub delete : Listener → List Listener → List Listener
unfolding same
delete l [] = []
delete l (x ∷ xs) = if same x l then xs else x ∷ delete l xs

abbrev pub Entries : Type 0
Entries = List (Text × List Listener)

pub record Emitter : Type 0 where
  pub listeners : Entries
  pub wrappers : ℕ

-- The listeners of an event; none where the map has no such key.
unfoldable pub listeners_of : Text → Entries → List Listener
listeners_of event [] = []
listeners_of event ((k, ls) ∷ m) = if text_eq k event then ls else listeners_of event m

unfoldable pub on_entries : Text → Listener → Entries → Entries
unfolding add
on_entries event l [] = (event, l ∷ []) ∷ []
on_entries event l ((k, ls) ∷ m) =
    if text_eq k event then (k, add l ls) ∷ m else (k, ls) ∷ on_entries event l m

put_back : Text → List Listener → Entries → Entries
put_back k [] m = m
put_back k (x ∷ xs) m = (k, x ∷ xs) ∷ m

unfoldable pub off_entries : Text → Listener → Entries → Entries
unfolding delete put_back
off_entries event l [] = []
off_entries event l ((k, ls) ∷ m) =
    if text_eq k event then put_back k (delete l ls) m else (k, ls) ∷ off_entries event l m

unfoldable pub on : Text → Listener → Emitter → Emitter
unfolding on_entries
on event l e = record e { listeners = on_entries event l e.listeners }

unfoldable pub off : Text → Listener → Emitter → Emitter
unfolding off_entries
off event l e = record e { listeners = off_entries event l e.listeners }

unfoldable pub once : Text → ℕ → Emitter → Emitter
unfolding on
once event f e = record (on event (once_of e.wrappers f) e) { wrappers = suc e.wrappers }

unfoldable pub listener_count : Text → Emitter → ℕ
unfolding listeners_of
listener_count event e = length (listeners_of event e.listeners)

unfoldable pub remove_all_listeners : Emitter → Emitter
remove_all_listeners e = record e { listeners = [] }

-- What a listener's function does when it is called: what it does to the emitter, and whether it throws.
abbrev pub Behaviour : Type 0 → Type 0
Behaviour A = ℕ → A → Emitter → Emitter × Bool

-- A dispatch: the emitter, the calls that were made, and the listeners that threw (`onError`).
pub record Dispatch (A : Type 0) : Type 0 where
  pub emitter : Emitter
  pub calls : List (ℕ × A)
  pub errors : List ℕ

-- A wrapper takes itself off before it calls.
unfoldable pub before_call : Text → Listener → Emitter → Emitter
before_call event (direct f) e = e
before_call event (once_of i f) e = off event (once_of i f) e

unfoldable pub call : {A : Type 0} → Behaviour A → Text → A → Listener → Dispatch A → Dispatch A
unfolding before_call
call b event payload l d =
    let f = function_of l in
    let (e, threw) = b f payload (before_call event l d.emitter) in
    record {
      emitter = e;
      calls = d.calls ++ (f, payload) ∷ [];
      errors = if threw then d.errors ++ f ∷ [] else d.errors;
    }

-- The loop over the snapshot `[...set]`.
unfoldable pub call_each :
    {A : Type 0} → Behaviour A → Text → A → List Listener → Dispatch A → Dispatch A
unfolding call
call_each b event payload [] d = d
call_each b event payload (l ∷ ls) d = call_each b event payload ls (call b event payload l d)

unfoldable pub emit : {A : Type 0} → Behaviour A → Text → A → Emitter → Dispatch A
unfolding call_each
emit b event payload e =
    call_each b event payload (listeners_of event e.listeners)
      (record { emitter = e; calls = []; errors = [] })
