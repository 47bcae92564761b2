-- ===== src/Server/Token.antt =====
-- packages/web-sdk-server/src/token.ts: `mintToken`, `verifyToken`, `assertScopes`. Times are whole numbers;
-- a claim of another JSON type than its field is absent (`v` is 0). The HMAC, base64url and JSON are
-- node's: a parameter.
pub mod Minting
pub mod Verifying
use beam_sdk_public.Common.{
  ℕ, zero, suc, ◌+◌, ◌/◌, min, ◌≡◌, Bool, true, false, ◌||◌, ◌&&◌, not, Option, none, some, List,
  [], ◌∷◌, ◌++◌, if◌then◌else◌, leb, ltb, ◌==◌, Text, codes, text_eq, includes, split_on, length,
  keep, Free,
}
use beam_sdk_public.Server.Checked.{
  ServerError, token_error, Checked, ok, fail, ◌>>=◌, ◌>>◌, ensure,
}

abbrev pub bwt_prefix : Text
bwt_prefix = codes "bwt1"

abbrev pub max_ttl_seconds : ℕ
max_ttl_seconds = 300

abbrev pub default_ttl_seconds : ℕ
default_ttl_seconds = 120

abbrev pub min_ttl_seconds : ℕ
min_ttl_seconds = 15

unfoldable pub beam_scopes : List Text
beam_scopes =
    codes "rooms:create"
    ∷ codes "rooms:join"
    ∷ codes "room:read"
    ∷ codes "broadcast:publish"
    ∷ codes "broadcast:watch"
    ∷ codes "transfers:create"
    ∷ codes "transfers:read"
    ∷ codes "transfers:cancel"
    ∷ []

unfoldable pub is_beam_scope : Text → Bool
unfolding beam_scopes
is_beam_scope s = includes beam_scopes s

pub record Claims : Type 0 where
  pub v : ℕ
  pub iss : Text
  pub aud : Text
  pub sub : Option Text
  pub org : Option Text
  pub scopes : Option (List Text)
  pub iat : Option ℕ
  pub exp : Option ℕ
  pub jti : Text
  pub origin : Option Text

-- What the module takes from node, and what it relies on.
pub record Crypto : Type 0 where
  -- HMAC-SHA256 of a payload under a secret, in base64url.
  pub sign : Text → Text → Text
  -- base64url of `JSON.stringify`, and the way back (`none` where `JSON.parse` throws).
  pub encode : Claims → Text
  pub decode : Text → Option Claims

-- base64url has no dot, and what was written as JSON is read back: for these claims.
pub record IsCrypto (w : Crypto) (c : Claims) : Type 0 where
  pub sign-free : (secret payload : Text) → Free b'.' (w.sign secret payload)
  pub encode-free : Free b'.' (w.encode c)
  pub decode-encode : w.decode (w.encode c) ≡ some c

abbrev pub invalid_token : Text → ServerError
invalid_token m = token_error m (codes "invalid_token")

abbrev pub weak_secret : ServerError
weak_secret =
    token_error
      (codes
        "The signing secret must be at least 32 characters. Generate one with `openssl rand -hex 32`.")
      (codes "weak_secret")

unfoldable pub usable_secret : Text → Bool
usable_secret secret = leb 32 (length secret)

pub record MintOptions : Type 0 where
  pub secret : Text
  pub issuer : Option Text
  pub audience : Option Text
  pub subject : Option Text
  pub organization_id : Option Text
  pub scopes : List Text
  pub ttl_seconds : Option ℕ
  pub origin : Option Text
  -- Milliseconds since the epoch.
  pub now : ℕ
  -- `randomBytes(12)` in base64url.
  pub jti : Text

pub record Minted : Type 0 where
  pub token : Text
  pub claims : Claims
  pub expires_in : ℕ

-- `[...new Set(scopes)]`: the first copy of each.
insert_last : Text → List Text → List Text
insert_last s seen = if includes seen s then seen else seen ++ s ∷ []

unfoldable pub unique_from : List Text → List Text → List Text
unfolding insert_last
unique_from seen [] = seen
unique_from seen (s ∷ ss) = unique_from (insert_last s seen) ss

abbrev pub is_empty : List Text → Bool
is_empty [] = true
is_empty (x ∷ xs) = false

abbrev pub get_or {ℓ} : {A : Type ℓ} → A → Option A → A
get_or d none = d
get_or d (some a) = a

unfoldable pub ttl_of : Option ℕ → ℕ
ttl_of o = min (get_or default_ttl_seconds o) max_ttl_seconds

unfoldable pub claims_of : MintOptions → Claims
unfolding unique_from ttl_of
claims_of o =
    let now = o.now / 1000 in
    record {
      v = 1;
      iss = get_or (codes "beam-web-sdk-server") o.issuer;
      aud = get_or (codes "beam-web-sdk") o.audience;
      sub = o.subject;
      org = o.organization_id;
      scopes = some (unique_from [] o.scopes);
      iat = some now;
      exp = some (now + ttl_of o.ttl_seconds);
      jti = o.jti;
      origin = o.origin;
    }

unfoldable pub token_of : Crypto → Text → Claims → Text
token_of w secret c =
    let payload = w.encode c in bwt_prefix ++ b'.' ∷ (payload ++ b'.' ∷ w.sign secret payload)

abbrev pub invalid_argument : Text → ServerError
invalid_argument m = token_error m (codes "invalid_argument")

unfoldable pub mint_token : Crypto → MintOptions → Checked Minted
unfolding usable_secret claims_of token_of
mint_token w o = do
  let scopes = unique_from [] o.scopes
  ensure (usable_secret o.secret) weak_secret
  ensure (not (is_empty scopes)) (invalid_argument (codes "A token must carry at least one scope."))
  ensure (is_empty (keep (λ s. not (is_beam_scope s)) scopes))
      (invalid_argument (codes "Unknown scope(s)"))
  ensure (not (ltb (ttl_of o.ttl_seconds) min_ttl_seconds))
      (invalid_argument (codes "ttlSeconds must be between 15 and 300."))
  ok (record {
    token = token_of w o.secret (claims_of o);
    claims = claims_of o;
    expires_in = ttl_of o.ttl_seconds;
  })

pub record VerifyOptions : Type 0 where
  pub secret : Text
  pub audience : Option Text
  pub origin : Option Text
  pub clock_tolerance_seconds : Option ℕ
  pub now : ℕ

-- `const [, payload, signature] = parts`, for three parts of which the first is the prefix.
unfoldable pub parts_of : List Text → Option (Text × Text)
parts_of (a ∷ p ∷ s ∷ []) = if text_eq a bwt_prefix then some (p, s) else none
parts_of _ = none

abbrev pub or_fail {ℓ} : {A : Type ℓ} → Option A → ServerError → Checked A
or_fail none e = fail e
or_fail (some a) e = ok a

unfoldable pub audience_matches : Option Text → Text → Bool
audience_matches none aud = true
audience_matches (some a) aud = text_eq aud a

unfoldable pub all_beam_scopes : List Text → Bool
unfolding is_beam_scope
all_beam_scopes [] = true
all_beam_scopes (s ∷ ss) = is_beam_scope s && all_beam_scopes ss

unfoldable pub scopes_known : Option (List Text) → Bool
unfolding all_beam_scopes
scopes_known none = false
scopes_known (some ss) = all_beam_scopes ss

unfoldable pub not_expired : ℕ → ℕ → Option ℕ → Bool
not_expired now tolerance none = false
not_expired now tolerance (some exp) = not (leb (exp + tolerance) now)

unfoldable pub issued_by : ℕ → ℕ → Option ℕ → Bool
issued_by now tolerance none = false
issued_by now tolerance (some iat) = not (ltb (now + tolerance) iat)

unfoldable pub lifetime_ok : ℕ → Option ℕ → Option ℕ → Bool
lifetime_ok tolerance (some iat) (some exp) = not (ltb (max_ttl_seconds + tolerance + iat) exp)
lifetime_ok tolerance _ _ = true

unfoldable pub origin_matches : Option Text → Option Text → Bool
origin_matches (some a) (some b) = text_eq b a
origin_matches _ _ = true

-- The checks of the claims, in the order of the source.
unfoldable pub check_claims : VerifyOptions → Claims → Checked Claims
check_claims o c = do
  let now = o.now / 1000
  let tolerance = get_or 30 o.clock_tolerance_seconds
  ensure (c.v == 1) (invalid_token (codes "Unsupported Beam token version."))
  ensure (audience_matches o.audience c.aud) (invalid_token (codes "Beam token audience mismatch."))
  ensure (scopes_known c.scopes) (invalid_token (codes "Beam token carries unknown scopes."))
  ensure (not_expired now tolerance c.exp)
      (token_error (codes "Beam token has expired.") (codes "token_expired"))
  ensure (issued_by now tolerance c.iat)
      (invalid_token (codes "Beam token was issued in the future."))
  ensure (lifetime_ok tolerance c.iat c.exp)
      (invalid_token (codes "Beam token lifetime exceeds the permitted maximum."))
  ensure (origin_matches o.origin c.origin) (
      token_error (codes "Beam token was issued for a different origin.") (codes "origin_mismatch"))
  ok c

unfoldable pub verify_token : Crypto → Text → VerifyOptions → Checked Claims
unfolding usable_secret check_claims
verify_token w token o = do
  ensure (usable_secret o.secret) weak_secret
  parts ← or_fail (parts_of (split_on b'.' token)) (invalid_token (codes "Malformed Beam token."))
  ensure (text_eq (w.sign o.secret parts.0) parts.1)
      (invalid_token (codes "Beam token signature is invalid."))
  claims ←
      or_fail (w.decode parts.0) (invalid_token (codes "Beam token payload is not valid JSON."))
  check_claims o claims

-- The scopes that a session lacks.
abbrev pub scopes_of : Claims → List Text
scopes_of c = get_or [] c.scopes

unfoldable pub missing_scopes : Claims → List Text → List Text
missing_scopes c required = keep (λ s. not (includes (scopes_of c) s)) required

unfoldable pub assert_scopes : Claims → List Text → Checked (Unit {0})
unfolding missing_scopes
assert_scopes c required = ensure (is_empty (missing_scopes c required)) (
    token_error (codes "This session is missing the required scope(s)")
      (codes "insufficient_scope"))
