-- ===== src/Auth/Provider.antt =====
-- packages/web-sdk/src/core/auth/provider.ts: `CachingTokenProvider`. A mint is a call of the `#mint`
-- function that settles later; the provider is a state, and calls, settlements and invalidations are
-- steps in the order in which they happen.
pub mod Safety
use beam_sdk_public.Common.{
  ℕ, zero, suc, ◌+◌, ◌≡◌, Bool, true, false, ◌||◌, ◌&&◌, not, Option, none, some, List, [], ◌∷◌,
  if◌then◌else◌, Text, codes,
}
use beam_sdk_public.Errors.{Thrown, beam, with_code, auth_failed, auth_error}
use beam_sdk_public.Retry.Loop.{Outcome, ok, err}
use beam_sdk_public.Auth.Token.{
  BeamToken, BeamTokenResponse, Platform, normalize_token_response, is_token_usable, is_token_stale,
}

pub record Provider : Type 0 where
  pub token : Option BeamToken
  pub issued_at : ℕ
  -- The mint that is under way, by its number.
  pub in_flight : Option ℕ
  -- How often `#mint` has been called.
  pub mints : ℕ

unfoldable pub new : Provider
new = record { token = none; issued_at = 0; in_flight = none; mints = 0 }

unfoldable pub invalidate : Provider → Provider
invalidate p = record p { token = none; issued_at = 0 }

-- What `getToken` returns: a cached token, or the promise of a mint.
pub data Handed : Type 0 where
  cached : BeamToken → Handed
  waits_for : ℕ → Handed

-- The mint is called, and its promise kept.
start_mint : Provider → Provider × Handed
start_mint p = (record p { in_flight = some p.mints; mints = suc p.mints }, waits_for p.mints)

-- `if (this.#inFlight)` and what follows it, for a cached token that is stale, or none.
join_or_start : Option ℕ → Option BeamToken → ℕ → Provider → Provider × Handed
unfolding start_mint
join_or_start none current now p = start_mint p
join_or_start (some id) none now p = (p, waits_for id)
join_or_start (some id) (some t) now p =
    if is_token_usable t now then (p, cached t) else (p, waits_for id)

check_current : Option BeamToken → ℕ → Provider → Provider × Handed
unfolding join_or_start
check_current none now p = join_or_start p.in_flight none now p
check_current (some t) now p =
    if is_token_stale t now p.issued_at
    then join_or_start p.in_flight (some t) now p
    else (p, cached t)

unfoldable pub get_token : ℕ → Provider → Provider × Handed
unfolding check_current
get_token now p = check_current p.token now p

is_empty : Text → Bool
is_empty [] = true
is_empty (c ∷ s) = false

abbrev pub no_token_error : Thrown
no_token_error = beam (
    auth_error (codes "The token endpoint did not return an access_token.") (with_code auth_failed))

abbrev pub expired_error : Thrown
expired_error = beam (
    auth_error
      (codes "The token endpoint returned an already-expired token. Check server clock skew.")
      (with_code auth_failed))

-- `#refresh` behind its `await`, for a response.
accept : Platform → BeamTokenResponse → ℕ → Provider → Provider × Outcome BeamToken
unfolding is_empty
accept w response now p =
    if is_empty response.access_token
    then (p, err no_token_error)
    else let token = normalize_token_response w response now in
      if is_token_usable token now
      then (record p { token = some token; issued_at = now }, ok token)
      else (p, err expired_error)

-- The mint settles at `now`, and `finally` forgets it.
unfoldable pub settle :
    Platform → Outcome BeamTokenResponse → ℕ → Provider → Provider × Outcome BeamToken
unfolding accept
settle w (err e) now p = (record p { in_flight = none }, err e)
settle w (ok response) now p =
    let (q, result) = accept w response now p in (record q { in_flight = none }, result)

pub data Action : Type 0 where
  gets : ℕ → Action
  settles : Outcome BeamTokenResponse → ℕ → Action
  invalidates : Action

settle_if : Platform → Option ℕ → Outcome BeamTokenResponse → ℕ → Provider → Provider
settle_if w none r now p = p
settle_if w (some id) r now p = (settle w r now p).0

-- Only a mint that is under way can settle.
unfoldable pub step : Platform → Action → Provider → Provider
unfolding settle_if
step w (gets now) p = (get_token now p).0
step w (settles r now) p = settle_if w p.in_flight r now p
step w invalidates p = invalidate p

unfoldable pub run : Platform → List Action → Provider → Provider
run w [] p = p
run w (a ∷ as') p = run w as' (step w a p)
