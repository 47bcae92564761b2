-- ===== src/Auth/Examples.antt =====
-- The theorems about packages/web-sdk/src/core/auth at concrete inputs.
use beam_sdk_public.Common.{
  ℕ, suc, ◌+◌, ◌≡◌, ◌≢◌, refl, ◌⊎◌, true, none, some, List, [], ◌∷◌, codes, split_on,
}
use beam_sdk_public.Retry.Loop.{ok}
use beam_sdk_public.Auth.Token.{
  BeamToken, BeamTokenResponse, Platform, decode_token_claims, normalize_token_response,
  is_token_usable, is_token_stale,
}
use beam_sdk_public.Auth.Provider.{
  Provider, new, invalidate, cached, waits_for, get_token, settle, Action, gets, settles,
  invalidates, step, run,
}
use beam_sdk_public.Auth.Provider.Safety.{
  Inv, under_way, settled_count, new-Inv, get_token_lem, run-Inv, invalidate-get_token,
}

-- A platform on which every payload reads as claims that expire at second 400.
abbrev platform : Platform
platform = record {
  atob = λ s. some s;
  parse_claims = λ s. some (record { exp = some 400; scopes = none; endpoint = none });
}

abbrev opaque_response : BeamTokenResponse
opaque_response = record {
  access_token = codes "opaque";
  expires_in = some 60;
  scopes = none;
  endpoint = none;
}

abbrev token : BeamToken
token = record { value = codes "t"; expires_at = 120000; scopes = []; endpoint = none }

abbrev holding : Provider
holding = record { token = some token; issued_at = 0; in_flight = some 1; mints = 2 }

get_token_lem_example :
    let (q, handed) = get_token 95000 holding in
    ((t : BeamToken)
      → handed ≡ cached t
      → (holding.token ≡ some t) × (is_token_usable t 95000 ≡ true) × (q ≡ holding))
    × ((id : ℕ)
        → handed ≡ waits_for id
        → (q.in_flight ≡ some id)
          × (q.token ≡ holding.token)
          × (((holding.in_flight ≡ some id) × (q.mints ≡ holding.mints))
              ⊎ ((holding.in_flight ≡ none)
                  × (id ≡ holding.mints)
                  × (q.mints ≡ suc holding.mints))))
get_token_lem_example = get_token_lem 95000 holding

abbrev session : List Action
session =
    gets 1000
    ∷ gets 1001
    ∷ settles (ok opaque_response) 1500
    ∷ gets 2000
    ∷ invalidates
    ∷ gets 3000
    ∷ []

session_mints : (run platform session new).mints ≡ 2
unfolding run new step get_token settle invalidate normalize_token_response is_token_usable
    is_token_stale decode_token_claims split_on
session_mints = refl

run-Inv_example :
    Inv (run platform session new)
    × ((run platform session new).mints + under_way new.in_flight
        ≡ new.mints
          + settled_count platform session new
          + under_way (run platform session new).in_flight)
run-Inv_example = run-Inv platform session new new-Inv

invalidate-get_token_example : (get_token 1000 (invalidate holding)).1 ≢ cached token
invalidate-get_token_example = invalidate-get_token 1000 holding token
