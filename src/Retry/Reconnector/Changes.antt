-- ===== src/Retry/Reconnector/Changes.antt =====
-- The states that a `Reconnector` (packages/web-sdk/src/core/retry/index.ts) reports to `onStateChange`.
use beam_sdk_public.Common.{
  ℕ, zero, suc, ◌≡◌, ◌≢◌, refl, subst, inl, inr, Bool, true, false, Option, some, List, [], ◌∷◌,
  arith, Bool-cases, some_inj,
}
use beam_sdk_public.Retry.Reconnector.{
  ReconnectState, connecting, connected, reconnecting, closed, Reconnector, new, same_state,
  set_state, mark_connected, ReconnectEnv, Ending, stopped, Run, mark_if, run_from, run, finish,
}
use beam_sdk_public.Retry.Reconnector.Rounds.{run_from_rule}

-- Each report differs from the one before it, and the first from `closed`.
abbrev pub Changed : ReconnectState → List ReconnectState → Type 0
Changed c [] = c ≢ closed
Changed c (d ∷ ds) = (c ≢ d) × Changed d ds

-- The last report is the current state; before any, the state is `closed`.
abbrev pub Faithful : ReconnectState → List ReconnectState → Type 0
Faithful s [] = s ≡ closed
Faithful s (c ∷ cs) = (s ≡ c) × Changed c cs

abbrev pub IsFaithful : Reconnector → Type 0
IsFaithful r = Faithful r.state r.changes

same_state-ne : (s t : ReconnectState) → same_state s t ≡ false → t ≢ s
unfolding same_state
same_state-ne s t h e = ground arith

changed : (s t : ReconnectState) (cs : List ReconnectState) → t ≢ s → Faithful s cs → Changed t cs
changed s t [] h f = subst (λ x. t ≢ x) f h
changed s t (c ∷ cs) h f = (subst (λ x. t ≢ x) f.0 h, f.1)

pub set_state-IsFaithful :
    (s : ReconnectState) (r : Reconnector) → IsFaithful r → IsFaithful (set_state s r)
unfolding set_state
set_state-IsFaithful s r f = elim (Bool-cases (same_state r.state s)) [
  | inl e ↦ rw e f
  | inr n ↦ rw n (refl, changed r.state s r.changes (same_state-ne r.state s n) f)
]

set_state-state : (s : ReconnectState) (r : Reconnector) → (set_state s r).state ≡ s
unfolding set_state same_state
set_state-state s r = ground arith

mark_if-IsFaithful : (b : Bool) (r : Reconnector) → IsFaithful r → IsFaithful (mark_if b r)
unfolding mark_if mark_connected
mark_if-IsFaithful true r f = set_state-IsFaithful connected (record r { attempt = 0 }) f
mark_if-IsFaithful false r f = f

abbrev Sound : Run → Type 0
Sound x = IsFaithful x.final × (x.final.state ≡ closed)

abbrev Closes : Option Run → Type 0
Closes o = (x : Run) → o ≡ some x → Sound x

finish-Closes : (e : Ending) (n : ℕ) (r : Reconnector) → IsFaithful r → Closes (finish e n r)
finish-Closes e n r f x h =
    subst Sound (some_inj h) (set_state-IsFaithful closed r f, set_state-state closed r)

run_from-Closes :
    (fuel : ℕ) (env : ReconnectEnv) (i : ℕ) (r : Reconnector)
    → IsFaithful r
    → Closes (run_from fuel env i r)
unfolding run_from
run_from-Closes zero env i r f = λ x h. cc
run_from-Closes (suc fuel) env i r f =
    let m = mark_if-IsFaithful (env.connect i).marks r f in
    let n = set_state-IsFaithful reconnecting (mark_if (env.connect i).marks r) m in
    run_from_rule Closes env i fuel r (finish-Closes stopped i r f)
      (λ e. finish-Closes e (suc i) _ m) (λ e. finish-Closes e (suc i) _ n)
      (λ room. run_from-Closes fuel env (suc i) _ n)

-- However `run` ends, the reconnector is `closed`, and its listener has been told of every change of
-- state: no report repeats the one before it, and the last report is `closed`.
pub run-closed :
    (fuel : ℕ) (env : ReconnectEnv) (x : Run)
    → run fuel env new ≡ some x
    → IsFaithful x.final × (x.final.state ≡ closed)
unfolding run new
run-closed fuel env x h =
    run_from-Closes fuel env 0 _ (set_state-IsFaithful connecting new refl) x h
