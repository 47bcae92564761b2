-- ===== src/Server/Examples.antt =====
-- The theorems about packages/web-sdk-server/src at concrete inputs.
use beam_sdk_public.Common.{
  trim, ◌+◌, ◌/◌, ◌≤◌, ◌≡◌, ◌≢◌, ◌↔◌, refl, true, none, some, [], ◌∷◌, arith, Text, codes, text_eq,
  includes, split_on, starts_with, if◌then◌else◌,
}
use beam_sdk_public.Server.Checked.{ok}
use beam_sdk_public.Server.Token.{
  Claims, Crypto, IsCrypto, MintOptions, Minted, VerifyOptions, mint_token, verify_token, ttl_of,
  usable_secret, is_beam_scope, unique_from, all_beam_scopes, bwt_prefix, scopes_of, assert_scopes,
  parts_of, audience_matches, scopes_known, not_expired, issued_by, lifetime_ok, origin_matches,
}
use beam_sdk_public.Server.Token.Minting.{Distinct, unique, mint_token-bounds}
use beam_sdk_public.Server.Token.Verifying.{
  AreAccepted, verify_token-mint_token, verify_token_sound,
}
use beam_sdk_public.Server.Json.{Items, Fields, get, as_array, includes_string}
use beam_sdk_public.Server.Routes.{rooms_get, match_route, exec}
use beam_sdk_public.Server.Broker.{
  Request, get_room, AuthorizedSession, Broker, token_body, record_body, Response, throws, asks,
  json, verify, cors_headers, non_empty, origin_of,
}
use beam_sdk_public.Server.Broker.Handlers.{
  created, handle, handle_token, handle_route, granted_scopes, mint_options, read_json, path_of,
  decoded_id,
}
use beam_sdk_public.Server.Broker.Access.{handle-asks}
use beam_sdk_public.Server.Broker.Granting.{handle_token-grants, IsUndecodable, handle-throws}

abbrev secret : Text
secret = codes "0123456789abcdef0123456789abcdef"

abbrev minting : MintOptions
minting = record {
  secret = secret;
  issuer = none;
  audience = none;
  subject = some (codes "u1");
  organization_id = none;
  scopes = codes "room:read" ∷ codes "rooms:join" ∷ codes "room:read" ∷ [];
  ttl_seconds = some 60;
  origin = none;
  now = 1000000;
  jti = codes "j";
}

abbrev minted_claims : Claims
minted_claims = record {
  v = 1;
  iss = codes "beam-web-sdk-server";
  aud = codes "beam-web-sdk";
  sub = some (codes "u1");
  org = none;
  scopes = some (codes "room:read" ∷ codes "rooms:join" ∷ []);
  iat = some 1000;
  exp = some 1060;
  jti = codes "j";
  origin = none;
}

-- Signs everything alike, and reads one set of claims.
abbrev toy_crypto : Crypto
toy_crypto = record {
  sign = λ s p. codes "sig";
  encode = λ c. codes "payload";
  decode = λ p. some minted_claims;
}

toy_crypto-IsCrypto : IsCrypto toy_crypto minted_claims
toy_crypto-IsCrypto = record {
  sign-free = λ s p. omega arith;
  encode-free = omega arith;
  decode-encode = refl;
}

abbrev minted : Minted
minted = record { token = codes "bwt1.payload.sig"; claims = minted_claims; expires_in = 60 }

mints : mint_token toy_crypto minting ≡ ok minted
unfolding mint_token is_beam_scope includes text_eq ttl_of unique_from
mints = refl

mint_token-bounds_example :
    (minted_claims.scopes ≡ some (unique minting))
    × Distinct (unique minting)
    × ((t : Text) → includes (unique minting) t ≡ includes minting.scopes t)
    × (unique minting ≢ [])
    × (all_beam_scopes (unique minting) ≡ true)
    × (15 ≤ 60)
    × (60 ≤ 300)
    × (minted_claims.iat ≡ some (1000000 / 1000))
    × (minted_claims.exp ≡ some (1000000 / 1000 + 60))
    × (usable_secret secret ≡ true)
mint_token-bounds_example = mint_token-bounds toy_crypto minting minted mints

abbrev verifying : VerifyOptions
verifying = record {
  secret = secret;
  audience = some (codes "beam-web-sdk");
  origin = some (codes "https://a.example");
  clock_tolerance_seconds = none;
  now = 1050000;
}

verify_token-mint_token_example :
    verify_token toy_crypto (codes "bwt1.payload.sig") verifying ≡ ok minted_claims
unfolding audience_matches origin_matches text_eq
verify_token-mint_token_example =
    verify_token-mint_token toy_crypto minting minted verifying toy_crypto-IsCrypto mints refl refl
      refl (omega arith) (omega arith)

verify_token_sound_example :
    (payload : Text) × (split_on b'.' (codes "bwt1.payload.sig")
      ≡ bwt_prefix ∷ payload ∷ codes "sig" ∷ [])
    × (some minted_claims ≡ some minted_claims)
    × AreAccepted verifying minted_claims
verify_token_sound_example =
    verify_token_sound toy_crypto (codes "bwt1.payload.sig") verifying minted_claims
      verify_token-mint_token_example

abbrev session : AuthorizedSession
session = record {
  subject = some (codes "u1");
  organization_id = none;
  scopes = codes "room:read" ∷ codes "rooms:join" ∷ [];
  ttl_seconds = some 60;
}

abbrev broker : Broker
broker = record {
  crypto = toy_crypto;
  secret = secret;
  base_path = codes "/api/beam";
  ttl_seconds = none;
  allowed_origins = [];
  issuer = none;
  audience = codes "beam-web-sdk";
  authorize = λ r. ok (some session);
  implements = λ c. true;
  parse_json = λ t. none;
  to_string = λ j. [];
  decode_uri_component = λ t. if starts_with t (codes "%") then none else some t;
  now = 1000000;
  jti = codes "j";
}

abbrev request : Request
request = record {
  method = codes "GET";
  pathname = codes "/api/beam/rooms/r1";
  authorization = some (codes "Bearer bwt1.payload.sig");
  origin = none;
  body = [];
  limit = none;
  status = none;
}

asks_room :
    handle broker request
    ≡ asks (get_room (codes "r1")) minted_claims (created broker request 200 record_body)
unfolding handle verify verify_token starts_with text_eq split_on match_route exec trim origin_of
    parts_of audience_matches scopes_known is_beam_scope includes not_expired issued_by lifetime_ok
    origin_matches assert_scopes decoded_id handle_route
asks_room = refl

handle-asks_example :
    (verify broker request (codes "room:read" ∷ []) ≡ ok minted_claims)
    × (includes (scopes_of minted_claims) (codes "room:read") ≡ true)
handle-asks_example =
    handle-asks broker request (get_room (codes "r1")) minted_claims
      (created broker request 200 record_body) asks_room

abbrev granted : Response
granted = record {
  status = 200;
  body =
      token_body (codes "bwt1.payload.sig") 60 (codes "room:read" ∷ codes "rooms:join" ∷ [])
        (codes "/api/beam");
  allow_origin = none;
}

grants : handle_token broker request ≡ ok granted
unfolding handle_token read_json granted_scopes mint_options mint_token is_beam_scope includes
    text_eq ttl_of unique_from json cors_headers as_array get
grants = refl

handle_token-grants_example :
    (s : AuthorizedSession) × (body : Fields) × (m : Minted) × (ok (some session) ≡ ok (some s))
    × (read_json broker request ≡ ok body)
    × (mint_token toy_crypto (mint_options broker request s (granted_scopes body s)) ≡ ok m)
    × (granted
        ≡ json broker request 200
            (token_body m.token m.expires_in (scopes_of m.claims) (codes "/api/beam")))
    × (15 ≤ m.expires_in)
    × (m.expires_in ≤ 300)
    × ((t : Text)
        → includes (scopes_of m.claims) t ≡ true
        → (includes s.scopes t ≡ true)
          × ((xs : Items)
              → as_array (get (codes "scopes") body) ≡ some xs
              → includes_string xs t ≡ true))
handle_token-grants_example = handle_token-grants broker request granted grants

abbrev malformed : Request
malformed = record request { pathname = codes "/api/beam/rooms/%E0" }

undecodable : IsUndecodable broker malformed
unfolding starts_with text_eq match_route split_on exec path_of decoded_id non_empty
undecodable = record {
  below = refl;
  other = refl;
  matched = (record { name = rooms_get; raw_id = codes "%E0" });
  fits = refl;
  refused = refl;
}

handle-throws_example : (handle broker malformed ≡ throws) ↔ IsUndecodable broker malformed
handle-throws_example = handle-throws broker malformed

malformed_throws : handle broker malformed ≡ throws
malformed_throws = handle-throws_example.1 undecodable
