-- ===== src/Server/Broker.antt =====
-- packages/web-sdk-server/src/broker.ts: `createBeamBroker`. Each route ends in at most one call of the
-- upstream; a handler is modelled as what it does up to that call, and what it makes of the answer. The
-- application's `authorize` and upstream, and the platform's JSON and URI functions, are parameters.
pub mod Handlers
pub mod Access
pub mod Granting
use mathlib.Core.List.{reverse}
use beam_sdk_public.Common.{
  trim, ℕ, zero, suc, ◌+◌, ◌≡◌, Bool, true, false, ◌||◌, ◌&&◌, not, Option, none, some, List, [],
  ◌∷◌, ◌++◌, if◌then◌else◌, ltb, ◌==◌, Text, codes, text_eq, includes, starts_with, keep, drop,
  length,
}
use beam_sdk_public.Server.Checked.{
  ServerError, token_error, broker_error, other_error, Checked, ok, fail, ◌>>=◌, ◌>>◌, ensure,
}
use beam_sdk_public.Server.Token.{
  Claims, Crypto, MintOptions, Minted, mint_token, VerifyOptions, verify_token, assert_scopes,
  get_or, or_fail, scopes_of, is_empty,
}
use beam_sdk_public.Server.Json.{
  Json, Items, Fields, end, obj, str, num, get, as_string, as_number, as_array, includes_string,
  map_items,
}
use beam_sdk_public.Server.Routes.{
  Route, token, rooms_create, rooms_get, transfers_create, transfers_list, transfers_events,
  transfers_cancel, transfers_get, RouteMatch, match_route,
}

pub record Request : Type 0 where
  pub method : Text
  pub pathname : Text
  pub authorization : Option Text
  pub origin : Option Text
  pub body : Text
  -- The search parameters `limit`, read by `Number`, and `status`.
  pub limit : Option ℕ
  pub status : Option Text

pub record CreateRoomInput : Type 0 where
  pub name : Option Text
  pub ttl_seconds : Option ℕ
  pub region : Option Text
  pub mode : Option Text
  pub metadata : Option Json

pub record CreateTransferInput : Type 0 where
  pub source : Text
  pub destinations : List Text
  pub name : Option Text
  pub metadata : Option Json

-- A call of the upstream.
pub data Call : Type 0 where
  create_room : CreateRoomInput → Call
  get_room : Text → Call
  create_transfer : CreateTransferInput → Call
  list_transfers : Option ℕ → Option Text → Call
  get_transfer watch_transfer cancel_transfer : Text → Call

pub record AuthorizedSession : Type 0 where
  pub subject : Option Text
  pub organization_id : Option Text
  pub scopes : List Text
  pub ttl_seconds : Option ℕ

pub record Broker : Type 0 where
  pub crypto : Crypto
  pub secret : Text
  pub base_path : Text
  pub ttl_seconds : Option ℕ
  pub allowed_origins : List Text
  pub issuer : Option Text
  pub audience : Text
  -- The application's `authorize`, and which methods its upstream has.
  pub authorize : Request → Checked (Option AuthorizedSession)
  pub implements : Call → Bool
  -- The platform: `JSON.parse` (`none` where it throws), `String`, `decodeURIComponent` (`none` where it
  -- throws), the clock in milliseconds, and the random part of a token.
  pub parse_json : Text → Option Json
  pub to_string : Json → Text
  pub decode_uri_component : Text → Option Text
  pub now : ℕ
  pub jti : Text

pub data Body : Type 0 where
  empty : Body
  token_body : Text → ℕ → List Text → Text → Body
  error_body : Text → Text → Body
  record_body : Json → Body
  transfers_body : Json → Body
  cancelled_body : Body
  stream_body : Json → Body
  -- A stream that ends in the event of an error.
  failed_stream : Body

pub record Response : Type 0 where
  pub status : ℕ
  pub body : Body
  -- `access-control-allow-origin`, sent with the other CORS headers or not at all.
  pub allow_origin : Option Text

-- What `handle` comes to before its upstream call.
pub data Handled : Type 0 where
  -- `undefined`: not a broker route.
  passes : Handled
  -- It throws past its `catch`.
  throws : Handled
  responds : Response → Handled
  -- The upstream is called for these claims; its answer, or its error, makes the response.
  asks : Call → Claims → (Checked Json → Response) → Handled

unfoldable pub non_empty : Text → Bool
non_empty [] = false
non_empty (c ∷ s) = true

cors_for : Broker → Option Text → Option Text
unfolding non_empty
cors_for b none = none
cors_for b (some o) = if non_empty o && includes b.allowed_origins o then some o else none

unfoldable pub cors_headers : Broker → Request → Option Text
unfolding cors_for
cors_headers b r = cors_for b r.origin

unfoldable pub json : Broker → Request → ℕ → Body → Response
unfolding cors_headers
json b r status body = record { status = status; body = body; allow_origin = cors_headers b r }

abbrev pub internal_message : Text
internal_message = codes "The Beam broker encountered an internal error."

unfoldable pub failure : Broker → Request → ServerError → Response
unfolding json
failure b r (broker_error m status code) = json b r status (error_body m code)
failure b r (token_error m code) =
    json b r (if text_eq code (codes "insufficient_scope") then 403 else 401) (error_body m code)
failure b r (other_error m) = json b r 500 (error_body internal_message (codes "internal"))

-- A header that is absent or empty is no origin to bind to.
unfoldable pub origin_of : Option Text → Option Text
unfolding non_empty
origin_of none = none
origin_of (some o) = if non_empty o then some o else none

unfoldable pub verify : Broker → Request → List Text → Checked Claims
unfolding origin_of
verify b r required = do
  let header = get_or [] r.authorization
  ensure (starts_with header (codes "Bearer "))
      (token_error (codes "Missing bearer token.") (codes "unauthenticated"))
  claims ← verify_token b.crypto (trim (drop 7 header)) (record {
    secret = b.secret;
    audience = some b.audience;
    origin = origin_of r.origin;
    clock_tolerance_seconds = none;
    now = b.now;
  })
  assert_scopes claims required
  ok claims
