-- ===== src/Server/Broker/Handlers.antt =====
-- packages/web-sdk-server/src/broker.ts: `readJson`, `handleToken`, the handlers of the routes and `handle`.
use beam_sdk_public.Common.{
  ℕ, not, Option, none, some, List, [], ◌∷◌, if◌then◌else◌, ltb, Text, codes, text_eq, starts_with,
  keep, drop, length,
}
use beam_sdk_public.Server.Checked.{
  ServerError, broker_error, Checked, ok, fail, ◌>>=◌, ◌>>◌, ensure,
}
use beam_sdk_public.Server.Token.{Claims, MintOptions, mint_token, or_fail, scopes_of, is_empty}
use beam_sdk_public.Server.Json.{
  Json, Items, Fields, end, obj, get, as_string, as_number, as_array, includes_string, map_items,
}
use beam_sdk_public.Server.Routes.{
  Route, token, rooms_create, rooms_get, transfers_create, transfers_list, transfers_events,
  transfers_cancel, transfers_get, RouteMatch, match_route,
}
use beam_sdk_public.Server.Broker.{
  Request, CreateRoomInput, CreateTransferInput, Call, create_room, get_room, create_transfer,
  list_transfers, get_transfer, watch_transfer, cancel_transfer, AuthorizedSession, Broker, Body,
  empty, token_body, record_body, transfers_body, cancelled_body, stream_body, failed_stream,
  Response, Handled, passes, throws, responds, asks, non_empty, cors_headers, json, failure,
  origin_of, verify,
}

fields_of : Json → Fields
fields_of (obj fs) = fs
fields_of _ = end

parsed_fields : Option Json → Checked Fields
unfolding fields_of
parsed_fields none =
    fail (broker_error (codes "Request body is not valid JSON.") 400 (codes "invalid_argument"))
parsed_fields (some j) = ok (fields_of j)

-- An array is an object too, without the members that are read here.
unfoldable pub read_json : Broker → Request → Checked Fields
unfolding parsed_fields non_empty
read_json b r = if non_empty r.body then parsed_fields (b.parse_json r.body) else ok end

abbrev pub not_implemented : ServerError
not_implemented =
    broker_error (codes "This Beam broker does not implement the method.") 501
      (codes "not_implemented")

unfoldable pub narrow : Option Items → List Text → List Text
narrow none scopes = scopes
narrow (some requested) scopes = keep (includes_string requested) scopes

-- The scopes that the session holds and the request asks for.
unfoldable pub granted_scopes : Fields → AuthorizedSession → List Text
unfolding narrow
granted_scopes body session = narrow (as_array (get (codes "scopes") body)) session.scopes

abbrev first {ℓ} : {A : Type ℓ} → Option A → Option A → Option A
first none b = b
first (some a) b = some a

unfoldable pub mint_options : Broker → Request → AuthorizedSession → List Text → MintOptions
unfolding origin_of
mint_options b r session granted = record {
  secret = b.secret;
  issuer = b.issuer;
  audience = some b.audience;
  subject = session.subject;
  organization_id = session.organization_id;
  scopes = granted;
  ttl_seconds = first session.ttl_seconds b.ttl_seconds;
  origin = origin_of r.origin;
  now = b.now;
  jti = b.jti;
}

unfoldable pub handle_token : Broker → Request → Checked Response
unfolding json
handle_token b r = do
  authorized ← b.authorize r
  session ←
      or_fail authorized
        (broker_error (codes "Not permitted to obtain a Beam token.") 401 (codes "unauthenticated"))
  body ← read_json b r
  let granted = granted_scopes body session
  ensure (not (is_empty granted)) (
      broker_error (codes "None of the requested scopes are permitted for this session.") 403
        (codes "permission_denied"))
  minted ← mint_token b.crypto (mint_options b r session granted)
  ok (
      json b r 200
        (token_body minted.token minted.expires_in (scopes_of minted.claims) b.base_path))

abbrev pub created : Broker → Request → ℕ → (Json → Body) → Checked Json → Response
created b r status make (ok j) = json b r status (make j)
created b r status make (fail e) = failure b r e

-- `handleTransferEvents`: the stream has begun when the watch fails, so that the status is 200. The records that it
-- yields are one value here, and those before a failure are not told apart.
abbrev pub watched : Broker → Request → Checked Json → Response
watched b r (ok j) = json b r 200 (stream_body j)
watched b r (fail e) = json b r 200 failed_stream

-- `requireCapability`, then the call.
unfoldable pub ask : Broker → Call → Claims → (Checked Json → Response) → Checked Handled
ask b c claims k = do ensure (b.implements c) not_implemented; ok (asks c claims k)

unfoldable pub room_input : Fields → CreateRoomInput
room_input body = record {
  name = as_string (get (codes "name") body);
  ttl_seconds = as_number (get (codes "ttl_seconds") body);
  region = as_string (get (codes "region") body);
  mode = as_string (get (codes "mode") body);
  metadata = get (codes "metadata") body;
}

unfoldable pub transfer_input : Broker → Fields → Checked CreateTransferInput
transfer_input b body = do
  let required =
      broker_error (codes "`source` and `destinations` are required.") 400
        (codes "invalid_argument")
  source ← or_fail (as_string (get (codes "source") body)) required
  destinations ← or_fail (as_array (get (codes "destinations") body)) required
  ok (record {
    source = source;
    destinations = map_items b.to_string destinations;
    name = as_string (get (codes "name") body);
    metadata = get (codes "metadata") body;
  })

positive : Option ℕ → Option ℕ
positive none = none
positive (some n) = if ltb 0 n then some n else none

-- The scope that each route asks for.
unfoldable pub scope_of_route : Route → Text
scope_of_route token = []
scope_of_route rooms_create = codes "rooms:create"
scope_of_route rooms_get = codes "room:read"
scope_of_route transfers_create = codes "transfers:create"
scope_of_route transfers_cancel = codes "transfers:cancel"
scope_of_route transfers_list = codes "transfers:read"
scope_of_route transfers_get = codes "transfers:read"
scope_of_route transfers_events = codes "transfers:read"

-- The cases of the `switch`, behind the check of the token.
unfoldable pub route_body : Broker → Request → Route → Text → Claims → Checked Handled
unfolding ask room_input transfer_input positive
route_body b r token id claims = ok passes
route_body b r rooms_create id claims = do
  body ← read_json b r
  ask b (create_room (room_input body)) claims (created b r 201 record_body)
route_body b r rooms_get id claims = ask b (get_room id) claims (created b r 200 record_body)
route_body b r transfers_create id claims = do
  body ← read_json b r
  input ← transfer_input b body
  ask b (create_transfer input) claims (created b r 201 record_body)
route_body b r transfers_list id claims =
    ask b (list_transfers (positive r.limit) r.status) claims (created b r 200 transfers_body)
route_body b r transfers_get id claims =
    ask b (get_transfer id) claims (created b r 200 record_body)
route_body b r transfers_events id claims = ask b (watch_transfer id) claims (watched b r)
route_body b r transfers_cancel id claims =
    ask b (cancel_transfer id) claims (created b r 200 (λ j. cancelled_body))

unfoldable pub handle_route : Broker → Request → Route → Text → Checked Handled
unfolding route_body scope_of_route
handle_route b r route id = do
  claims ← verify b r (scope_of_route route ∷ [])
  route_body b r route id claims

unfoldable pub token_route : Checked Response → Checked Handled
token_route (ok x) = ok (responds x)
token_route (fail e) = fail e

-- The `try` block and its `catch`.
unfoldable pub caught : Broker → Request → Checked Handled → Handled
caught b r (ok h) = h
caught b r (fail e) = responds (failure b r e)

unfoldable pub dispatch : Broker → Request → Route → Text → Checked Handled
unfolding token_route handle_route
dispatch b r token id = token_route (handle_token b r)
dispatch b r rooms_create id = handle_route b r rooms_create id
dispatch b r rooms_get id = handle_route b r rooms_get id
dispatch b r transfers_create id = handle_route b r transfers_create id
dispatch b r transfers_list id = handle_route b r transfers_list id
dispatch b r transfers_events id = handle_route b r transfers_events id
dispatch b r transfers_cancel id = handle_route b r transfers_cancel id
dispatch b r transfers_get id = handle_route b r transfers_get id

-- `match[1] ? decodeURIComponent(match[1]) : ""`, which stands before the `try` block.
unfoldable pub decoded_id : Broker → Text → Option Text
decoded_id b [] = some []
decoded_id b (c ∷ s) = b.decode_uri_component (c ∷ s)

unfoldable pub with_id : Broker → Request → Route → Option Text → Handled
unfolding caught dispatch
with_id b r route none = throws
with_id b r route (some id) = caught b r (dispatch b r route id)

unfoldable pub handle_match : Broker → Request → Option RouteMatch → Handled
unfolding with_id decoded_id
handle_match b r none = passes
handle_match b r (some m) = with_id b r m.name (decoded_id b m.raw_id)

-- `slice(basePath.length) || "/"`.
unfoldable pub path_of : Broker → Request → Text
path_of b r =
    let rest = drop (length b.base_path) r.pathname in if non_empty rest then rest else codes "/"

unfoldable pub handle : Broker → Request → Handled
unfolding handle_match path_of
handle b r =
    if starts_with r.pathname b.base_path
    then (if text_eq r.method (codes "OPTIONS")
        then responds (record { status = 204; body = empty; allow_origin = cors_headers b r })
        else handle_match b r (match_route r.method (path_of b r)))
    else passes
