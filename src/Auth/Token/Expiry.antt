-- ===== src/Auth/Token/Expiry.antt =====
-- When a token of packages/web-sdk/src/core/auth/token.ts is usable and when it is stale.
use beam_sdk_public.Common.{
  ℕ, ◌+◌, ◌*◌, ◌≤◌, ◌<◌, ◌≡◌, refl, true, false, Option, none, some, arith,
}
use beam_sdk_public.Auth.Token.{
  BeamToken, BeamTokenResponse, BeamTokenClaims, Platform, decode_token_claims,
  normalize_token_response, is_token_usable, is_token_stale, expiry,
}

pub usable-lt :
    (token : BeamToken) (now : ℕ) → is_token_usable token now ≡ true → now + 5000 < token.expires_at
unfolding is_token_usable
usable-lt token now h = ground arith

-- A token that is not stale is usable, and was issued before it expires; and staleness is for good: a
-- token that is stale stays so at every later time.
pub is_token_stale_lem :
    (token : BeamToken) (now later issued_at : ℕ)
    → now ≤ later
    → (is_token_stale token now issued_at ≡ false
        → (is_token_usable token now ≡ true) × (issued_at < token.expires_at))
      × (is_token_stale token now issued_at ≡ true → is_token_stale token later issued_at ≡ true)
unfolding is_token_stale
is_token_stale_lem token now later issued_at h = (λ e. ground arith, λ e. ground arith)

-- The lifetime that a response states, or else the fallback.
abbrev pub lifetime : Option ℕ → ℕ
lifetime none = 120
lifetime (some s) = s

expiry-lifetime : (o : Option ℕ) (now : ℕ) → expiry none o now ≡ now + lifetime o * 1000
unfolding expiry
expiry-lifetime none now = refl
expiry-lifetime (some s) now = refl

-- The `exp` claim decides the expiry, whatever `expires_in` says and whenever the response arrives.
-- Without claims a token is usable until five seconds before its stated lifetime (or 120 seconds) is
-- over, counted from its arrival, and not from then on.
pub normalize_token_response_lem :
    (w : Platform) (response : BeamTokenResponse) (now later : ℕ)
    → let token = normalize_token_response w response now in
      ((c : BeamTokenClaims) (exp : ℕ)
        → decode_token_claims w response.access_token ≡ some c
        → c.exp ≡ some exp
        → token.expires_at ≡ exp * 1000)
      × (decode_token_claims w response.access_token ≡ none
          → (later + 5000 < now + lifetime response.expires_in * 1000
              → is_token_usable token later ≡ true)
            × (now + lifetime response.expires_in * 1000 ≤ later + 5000
                → is_token_usable token later ≡ false))
unfolding normalize_token_response is_token_usable
normalize_token_response_lem w response now later = (
  λ c exp h e. rw (h, e) refl,
  λ h. (
    λ k. rw (h, expiry-lifetime response.expires_in now) (ground arith),
    λ k. rw (h, expiry-lifetime response.expires_in now) (ground arith),
  ),
)
