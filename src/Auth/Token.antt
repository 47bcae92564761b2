-- ===== src/Auth/Token.antt =====
-- packages/web-sdk/src/core/auth/token.ts. Times are whole milliseconds, `exp` and `expires_in` whole
-- seconds. `atob`, and `JSON.parse` with the reading of its result as claims, are the platform's.
pub mod Expiry
pub mod Decoding
use beam_sdk_public.Common.{
  ℕ, zero, suc, ◌+◌, ◌-◌, ◌*◌, ◌%◌, ◌≤◌, ◌<◌, ◌≡◌, Bool, true, false, ◌||◌, ◌&&◌, not, Option, none,
  some, List, [], ◌∷◌, ◌++◌, map, if◌then◌else◌, leb, ltb, ◌==◌, Text, codes, split_on, length,
  text_eq,
}

pub record BeamToken : Type 0 where
  pub value : Text
  -- Epoch milliseconds.
  pub expires_at : ℕ
  pub scopes : List Text
  pub endpoint : Option Text

pub record BeamTokenResponse : Type 0 where
  pub access_token : Text
  pub expires_in : Option ℕ
  pub scopes : Option (List Text)
  pub endpoint : Option Text

pub record BeamTokenClaims : Type 0 where
  pub exp : Option ℕ
  pub scopes : Option (List Text)
  pub endpoint : Option Text

pub record Platform : Type 0 where
  -- `atob`; `none` where it throws.
  pub atob : Text → Option Text
  -- `JSON.parse`; `none` where it throws or gives no object.
  pub parse_claims : Text → Option BeamTokenClaims

-- `replace(/-/g, "+").replace(/_/g, "/")`, for one character.
unfoldable pub standard_char : ℕ → ℕ
standard_char c = if c == b'-' then b'+' else if c == b'_' then b'/' else c

abbrev pub padding : ℕ → Text
padding zero = []
padding (suc n) = b'=' ∷ padding n

-- What `atob` is given: the standard alphabet, padded to a whole number of quadruples.
unfoldable pub with_padding : Text → Text
unfolding standard_char
with_padding value = map standard_char value ++ padding ((4 - length value % 4) % 4)

-- The payload of three parts; the test of the prefix, `bwt1` or not, leads to the same one.
unfoldable pub payload_part : List Text → Option Text
payload_part (a ∷ p ∷ s ∷ []) = if text_eq a (codes "bwt1") then some p else some p
payload_part _ = none

then_claims : Platform → Option Text → Option BeamTokenClaims
then_claims w none = none
then_claims w (some decoded) = w.parse_claims decoded

claims_of_part : Platform → Option Text → Option BeamTokenClaims
unfolding with_padding then_claims
claims_of_part w none = none
claims_of_part w (some payload) = then_claims w (w.atob (with_padding payload))

unfoldable pub decode_token_claims : Platform → Text → Option BeamTokenClaims
unfolding claims_of_part payload_part
decode_token_claims w token = claims_of_part w (payload_part (split_on b'.' token))

abbrev pub fallback_ttl_seconds : ℕ
fallback_ttl_seconds = 120

abbrev or_else {ℓ} : {A : Type ℓ} → Option A → Option A → Option A
or_else none b = b
or_else (some a) b = some a

abbrev claim {ℓ} : {A : Type ℓ} → (BeamTokenClaims → Option A) → Option BeamTokenClaims → Option A
claim f none = none
claim f (some c) = f c

expiry : Option ℕ → Option ℕ → ℕ → ℕ
expiry (some exp) expires_in now = exp * 1000
expiry none (some expires_in) now = now + expires_in * 1000
expiry none none now = now + fallback_ttl_seconds * 1000

or_empty : Option (List Text) → List Text
or_empty none = []
or_empty (some l) = l

unfoldable pub normalize_token_response : Platform → BeamTokenResponse → ℕ → BeamToken
unfolding expiry or_empty
normalize_token_response w response now =
    let claims = decode_token_claims w response.access_token in
    record {
      value = response.access_token;
      expires_at = expiry (claim (λ c. c.exp) claims) response.expires_in now;
      scopes = or_empty (or_else response.scopes (claim (λ c. c.scopes) claims));
      endpoint = or_else response.endpoint (claim (λ c. c.endpoint) claims);
    }

abbrev pub min_refresh_margin_ms : ℕ
min_refresh_margin_ms = 5000

unfoldable pub is_token_usable : BeamToken → ℕ → Bool
is_token_usable token now = not (leb token.expires_at (now + min_refresh_margin_ms))

-- `REFRESH_AT_FRACTION` is 3/4, multiplied out: `now - issued_at >= 3/4 * (expires_at - issued_at)`.
unfoldable pub is_token_stale : BeamToken → ℕ → ℕ → Bool
unfolding is_token_usable
is_token_stale token now issued_at =
    if leb token.expires_at issued_at
    then true
    else leb (3 * (token.expires_at - issued_at) + 4 * issued_at) (4 * now)
      || not (is_token_usable token now)
