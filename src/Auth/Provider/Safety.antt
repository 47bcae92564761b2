-- ===== src/Auth/Provider/Safety.antt =====
-- What `CachingTokenProvider` of packages/web-sdk/src/core/auth/provider.ts hands out and how it mints.
use beam_sdk_public.Common.{
  ℕ, suc, ◌+◌, ◌<◌, ◌≡◌, ◌≢◌, refl, ap, ◌⊎◌, true, Option, none, some, List, [], ◌∷◌, arith,
}
use beam_sdk_public.Retry.Loop.{Outcome, ok, err}
use beam_sdk_public.Auth.Token.{
  BeamToken, BeamTokenResponse, Platform, normalize_token_response, is_token_usable,
}
use beam_sdk_public.Auth.Token.Expiry.{usable-lt, is_token_stale_lem}
use beam_sdk_public.Auth.Provider.{
  Provider, new, invalidate, cached, waits_for, get_token, settle, Action, gets, settles,
  invalidates, step, settle_if, run,
}

-- A mint under way is the latest that was started; the cached token was usable when it was issued.
pub record Inv (p : Provider) : Type 0 where
  pub latest : (id : ℕ) → p.in_flight ≡ some id → suc id ≡ p.mints
  pub fresh : (t : BeamToken) → p.token ≡ some t → p.issued_at + 5000 < t.expires_at

-- A cached token that `getToken` hands out is the one it holds, and is usable at that time; it then
-- changes nothing. Otherwise the caller waits for the mint under way, or, if there is none, for one that
-- is started: no call starts a second.
pub get_token_lem :
    (now : ℕ) (p : Provider)
    → let (q, handed) = get_token now p in
      ((t : BeamToken)
        → handed ≡ cached t
        → (p.token ≡ some t) × (is_token_usable t now ≡ true) × (q ≡ p))
      × ((id : ℕ)
          → handed ≡ waits_for id
          → (q.in_flight ≡ some id)
            × (q.token ≡ p.token)
            × (((p.in_flight ≡ some id) × (q.mints ≡ p.mints))
                ⊎ ((p.in_flight ≡ none) × (id ≡ p.mints) × (q.mints ≡ suc p.mints))))
unfolding get_token
get_token_lem now p = (
  λ t h. ground (arith, is_token_stale_lem t now now p.issued_at (omega arith)),
  λ id h. ground arith,
)

pub new-Inv : Inv new
unfolding new
new-Inv = record { latest = λ id h. cc; fresh = λ t h. cc }

settle-Inv :
    (w : Platform) (r : Outcome BeamTokenResponse) (now : ℕ) (p : Provider)
    → Inv p
    → Inv (settle w r now p).0
unfolding settle
settle-Inv w (err e) now p v = record { latest = λ id h. cc; fresh = v.fresh }
settle-Inv w (ok r) now p v = record {
  latest = λ id h. ground arith;
  fresh = λ t h. ground (arith, v.fresh t, usable-lt (normalize_token_response w r now) now);
}

get_token-Inv : (now : ℕ) (p : Provider) → Inv p → Inv (get_token now p).0
unfolding get_token
get_token-Inv now p v = record {
  latest = λ id h. ground (arith, v.latest id);
  fresh = λ t h. ground (arith, v.fresh t);
}

settle_if-Inv :
    (w : Platform) (o : Option ℕ) (r : Outcome BeamTokenResponse) (now : ℕ) (p : Provider)
    → Inv p
    → Inv (settle_if w o r now p)
unfolding settle_if
settle_if-Inv w none r now p v = v
settle_if-Inv w (some id) r now p v = settle-Inv w r now p v

step-Inv : (w : Platform) (a : Action) (p : Provider) → Inv p → Inv (step w a p)
unfolding step
step-Inv w (gets now) p v = get_token-Inv now p v
step-Inv w (settles r now) p v = settle_if-Inv w p.in_flight r now p v
step-Inv w invalidates p v = unfold invalidate in record { latest = v.latest; fresh = λ t h. cc }

-- The mints that are under way.
abbrev pub under_way : Option ℕ → ℕ
under_way none = 0
under_way (some id) = 1

-- The mints that settle in a step, and in a sequence of steps.
abbrev pub settled_in : Action → Provider → ℕ
settled_in (settles r now) p = under_way p.in_flight
settled_in (gets now) p = 0
settled_in invalidates p = 0

abbrev pub settled_count : Platform → List Action → Provider → ℕ
settled_count w [] p = 0
settled_count w (a ∷ as') p = settled_in a p + settled_count w as' (step w a p)

-- The mints under way and those that start are those that settle and those under way after it.
abbrev Balanced : Provider → ℕ → Provider → Type 0
Balanced p n q = q.mints + under_way p.in_flight ≡ p.mints + n + under_way q.in_flight

get_token-Balanced : (now : ℕ) (p : Provider) → Balanced p 0 (get_token now p).0
unfolding get_token
get_token-Balanced now p = ground arith

settle_in_flight :
    (w : Platform) (r : Outcome BeamTokenResponse) (now : ℕ) (p : Provider)
    → ((settle w r now p).0.in_flight ≡ none) × ((settle w r now p).0.mints ≡ p.mints)
unfolding settle
settle_in_flight w (err e) now p = (refl, refl)
settle_in_flight w (ok r) now p = (ground arith, ground arith)

settle_if-Balanced :
    (w : Platform) (o : Option ℕ) (r : Outcome BeamTokenResponse) (now : ℕ) (p : Provider)
    → p.in_flight ≡ o
    → Balanced p (under_way p.in_flight) (settle_if w o r now p)
unfolding settle_if
settle_if-Balanced w none r now p e = let idle = ap under_way e in omega (arith, idle)
settle_if-Balanced w (some id) r now p e =
    let (f, g) = settle_in_flight w r now p in
    let none_left = ap under_way f in omega (arith, none_left, g)

step-Balanced :
    (w : Platform) (a : Action) (p : Provider) → Balanced p (settled_in a p) (step w a p)
unfolding step
step-Balanced w (gets now) p = get_token-Balanced now p
step-Balanced w (settles r now) p = settle_if-Balanced w p.in_flight r now p refl
step-Balanced w invalidates p = unfold invalidate in omega arith

run-Balanced :
    (w : Platform) (as' : List Action) (p : Provider)
    → Balanced p (settled_count w as' p) (run w as' p)
unfolding run
run-Balanced w [] p = omega arith
run-Balanced w (a ∷ as') p =
    let one = step-Balanced w a p in
    let rest = run-Balanced w as' (step w a p) in omega (arith, one, rest)

run_keeps : (w : Platform) (as' : List Action) (p : Provider) → Inv p → Inv (run w as' p)
unfolding run
run_keeps w [] p v = v
run_keeps w (a ∷ as') p v = run_keeps w as' (step w a p) (step-Inv w a p v)

-- After any sequence of calls, settlements and invalidations, all mints that were started have settled but the
-- one under way, if there is one, which is the latest: the mints that were under way or started are as many as
-- those that settled and that one. And the cached token had more than five seconds left when it was cached.
pub run-Inv :
    (w : Platform) (as' : List Action) (p : Provider)
    → Inv p
    → Inv (run w as' p)
      × ((run w as' p).mints + under_way p.in_flight
          ≡ p.mints + settled_count w as' p + under_way (run w as' p).in_flight)
run-Inv w as' p v = (run_keeps w as' p v, run-Balanced w as' p)

-- The call that follows an invalidation is never handed a cached token.
pub invalidate-get_token :
    (now : ℕ) (p : Provider) (t : BeamToken) → (get_token now (invalidate p)).1 ≢ cached t
unfolding invalidate get_token
invalidate-get_token now p t h = ground arith

-- A settlement leaves no mint under way. It hands on the token that it caches, and then that token is
-- usable at that time; or it hands on an error and leaves the cached token as it was.
pub settle_lem :
    (w : Platform) (r : Outcome BeamTokenResponse) (now : ℕ) (p : Provider)
    → let (q, result) = settle w r now p in
      (q.in_flight ≡ none)
      × ((t : BeamToken)
          → result ≡ ok t
          → (q.token ≡ some t) × (q.issued_at ≡ now) × (is_token_usable t now ≡ true))
      × (((t : BeamToken) → result ≢ ok t) → (q.token ≡ p.token) × (q.issued_at ≡ p.issued_at))
unfolding settle
settle_lem w (err e) now p = (refl, λ t h. cc, λ n. (refl, refl))
settle_lem w (ok r) now p =
    (ground arith, λ t h. ground arith, λ n. ground (arith, n (normalize_token_response w r now)))
