-- ===== src/Server/Broker/Access.antt =====
-- Which requests reach the upstream through `handle` of packages/web-sdk-server/src/broker.ts.
use beam_sdk_public.Common.{
  ◌≡◌, refl, sym, ap, ◌∙◌, subst, true, Option, none, some, [], ◌∷◌, arith, Text, codes, text_eq,
  text_eq_refl, includes, starts_with, if_rule,
}
use beam_sdk_public.Server.Checked.{Checked, ok, fail, ◌>>=◌, ensure-ok}
use beam_sdk_public.Server.Token.{Claims, scopes_of, assert_scopes, verify_token}
use beam_sdk_public.Server.Token.Verifying.{assert_scopes_sound}
use beam_sdk_public.Server.Json.{Json}
use beam_sdk_public.Server.Routes.{
  Route, token, rooms_create, rooms_get, transfers_create, transfers_list, transfers_events,
  transfers_cancel, transfers_get, RouteMatch, match_route,
}
use beam_sdk_public.Server.Broker.{
  Request, Call, create_room, get_room, create_transfer, list_transfers, get_transfer,
  watch_transfer, cancel_transfer, Broker, Response, Handled, passes, throws, responds, asks,
  verify,
}
use beam_sdk_public.Server.Broker.Handlers.{
  ask, route_body, scope_of_route, handle_route, token_route, caught, dispatch, decoded_id, with_id,
  handle_match, path_of, handle, handle_token, read_json, transfer_input, room_input,
}

-- The scope that a call of the upstream takes.
abbrev pub scope_of_call : Call → Text
scope_of_call (create_room i) = codes "rooms:create"
scope_of_call (get_room id) = codes "room:read"
scope_of_call (create_transfer i) = codes "transfers:create"
scope_of_call (list_transfers l s) = codes "transfers:read"
scope_of_call (get_transfer id) = codes "transfers:read"
scope_of_call (watch_transfer id) = codes "transfers:read"
scope_of_call (cancel_transfer id) = codes "transfers:cancel"

>>=-ok {ℓ} :
    {A B : Type ℓ} (m : Checked A) (f : A → Checked B) {b : B}
    → (m >>= f) ≡ ok b
    → (a : A) × (m ≡ ok a) × (f a ≡ ok b)
>>=-ok (ok a) f h = (a, refl, h)
>>=-ok (fail e) f h = cc

-- Only the call of this scope is made, for these claims.
abbrev Needs : Text → Claims → Handled → Type 0
Needs scope claims (asks c cl k) = (cl ≡ claims) × (scope_of_call c ≡ scope)
Needs scope claims _ = Unit {0}

ok_inj : {A : Type 0} {x y : A} → ok x ≡ ok y → x ≡ y
ok_inj p = cc

asked : (scope : Text) → includes (scope ∷ []) scope ≡ true
unfolding includes
asked scope = ground (arith, text_eq_refl scope)

ask-Needs :
    (b : Broker) (c : Call) (claims : Claims) (k : Checked Json → Response) (h : Handled)
    → ask b c claims k ≡ ok h
    → Needs (scope_of_call c) claims h
unfolding ask
ask-Needs b c claims k h e =
    let (i, e') = ensure-ok (b.implements c) _ _ e in
    subst (Needs (scope_of_call c) claims) (ok_inj e') (refl, refl)

route_body-Needs :
    (b : Broker) (r : Request) (route : Route) (id : Text) (claims : Claims) (h : Handled)
    → route_body b r route id claims ≡ ok h
    → Needs (scope_of_route route) claims h
unfolding route_body scope_of_route
route_body-Needs b r token id claims h e = subst (Needs [] claims) (ok_inj e) tt
route_body-Needs b r rooms_create id claims h e =
    let (body, e₁, e₂) = >>=-ok (read_json b r) _ e in
    ask-Needs b (create_room (room_input body)) claims _ h e₂
route_body-Needs b r rooms_get id claims h e = ask-Needs b (get_room id) claims _ h e
route_body-Needs b r transfers_create id claims h e =
    let (body, e₁, e₂) = >>=-ok (read_json b r) _ e in
    let (input, e₃, e₄) = >>=-ok (transfer_input b body) _ e₂ in
    ask-Needs b (create_transfer input) claims _ h e₄
route_body-Needs b r transfers_list id claims h e =
    ask-Needs b (list_transfers _ r.status) claims _ h e
route_body-Needs b r transfers_get id claims h e = ask-Needs b (get_transfer id) claims _ h e
route_body-Needs b r transfers_events id claims h e = ask-Needs b (watch_transfer id) claims _ h e
route_body-Needs b r transfers_cancel id claims h e = ask-Needs b (cancel_transfer id) claims _ h e

-- A call is made only for claims that `verify` returns for its scope.
abbrev Allowed : Broker → Request → Handled → Type 0
Allowed b r (asks c claims k) = verify b r (scope_of_call c ∷ []) ≡ ok claims
Allowed b r _ = Unit {0}

Needs-Allowed :
    (b : Broker) (r : Request) (scope : Text) (claims : Claims) (h : Handled)
    → verify b r (scope ∷ []) ≡ ok claims
    → Needs scope claims h
    → Allowed b r h
Needs-Allowed b r scope claims passes v n = tt
Needs-Allowed b r scope claims throws v n = tt
Needs-Allowed b r scope claims (responds x) v n = tt
Needs-Allowed b r scope claims (asks c cl k) v n =
    ap (λ s. verify b r (s ∷ [])) n.1 ∙ v ∙ ap ok (sym n.0)

handle_route-Allowed :
    (b : Broker) (r : Request) (route : Route) (id : Text) (h : Handled)
    → handle_route b r route id ≡ ok h
    → Allowed b r h
unfolding handle_route
handle_route-Allowed b r route id h e =
    let (claims, v, e') = >>=-ok (verify b r (scope_of_route route ∷ [])) _ e in
    Needs-Allowed b r (scope_of_route route) claims h v (route_body-Needs b r route id claims h e')

token_route-Allowed :
    (b : Broker) (r : Request) (x : Checked Response) (h : Handled)
    → token_route x ≡ ok h
    → Allowed b r h
unfolding token_route
token_route-Allowed b r (ok y) h e = subst (Allowed b r) (ok_inj e) tt
token_route-Allowed b r (fail y) h e = cc

dispatch-Allowed :
    (b : Broker) (r : Request) (route : Route) (id : Text) (h : Handled)
    → dispatch b r route id ≡ ok h
    → Allowed b r h
unfolding dispatch
dispatch-Allowed b r token id h e = token_route-Allowed b r (handle_token b r) h e
dispatch-Allowed b r rooms_create id h e = handle_route-Allowed b r rooms_create id h e
dispatch-Allowed b r rooms_get id h e = handle_route-Allowed b r rooms_get id h e
dispatch-Allowed b r transfers_create id h e = handle_route-Allowed b r transfers_create id h e
dispatch-Allowed b r transfers_list id h e = handle_route-Allowed b r transfers_list id h e
dispatch-Allowed b r transfers_events id h e = handle_route-Allowed b r transfers_events id h e
dispatch-Allowed b r transfers_cancel id h e = handle_route-Allowed b r transfers_cancel id h e
dispatch-Allowed b r transfers_get id h e = handle_route-Allowed b r transfers_get id h e

caught-Allowed :
    (b : Broker) (r : Request) (x : Checked Handled)
    → ((h : Handled) → x ≡ ok h → Allowed b r h)
    → Allowed b r (caught b r x)
unfolding caught
caught-Allowed b r (ok h) f = f h refl
caught-Allowed b r (fail e) f = tt

with_id-Allowed :
    (b : Broker) (r : Request) (route : Route) (id : Option Text)
    → Allowed b r (with_id b r route id)
unfolding with_id
with_id-Allowed b r route none = tt
with_id-Allowed b r route (some id) =
    caught-Allowed b r (dispatch b r route id) (dispatch-Allowed b r route id)

handle_match-Allowed :
    (b : Broker) (r : Request) (m : Option RouteMatch) → Allowed b r (handle_match b r m)
unfolding handle_match
handle_match-Allowed b r none = tt
handle_match-Allowed b r (some m) = with_id-Allowed b r m.name (decoded_id b m.raw_id)

handle-Allowed : (b : Broker) (r : Request) → Allowed b r (handle b r)
unfolding handle
handle-Allowed b r =
    if_rule (Allowed b r) (starts_with r.pathname b.base_path) _ _
      (λ s.
        if_rule (Allowed b r) (text_eq r.method (codes "OPTIONS")) _ _ (λ o. tt)
          (λ o. handle_match-Allowed b r (match_route r.method (path_of b r))))
      (λ s. tt)

verify-scope :
    (b : Broker) (r : Request) (scope : Text) (c : Claims)
    → verify b r (scope ∷ []) ≡ ok c
    → includes (scopes_of c) scope ≡ true
unfolding verify
verify-scope b r scope c h =
    let (bearer, h₁) = ensure-ok (starts_with _ _) _ _ h in
    let (claims, e, h₂) = >>=-ok (verify_token b.crypto _ _) _ h₁ in
    let (u, passed, h₃) = >>=-ok (assert_scopes claims (scope ∷ [])) _ h₂ in
    subst (λ d. includes (scopes_of d) scope ≡ true) (ok_inj h₃)
      (assert_scopes_sound claims (scope ∷ []) scope passed (asked scope))

-- `handle` calls the upstream only for a request whose bearer token verifies, with the claims of that
-- token, and only if they hold the scope of that call.
pub handle-asks :
    (b : Broker) (r : Request) (c : Call) (claims : Claims) (k : Checked Json → Response)
    → handle b r ≡ asks c claims k
    → (verify b r (scope_of_call c ∷ []) ≡ ok claims)
      × (includes (scopes_of claims) (scope_of_call c) ≡ true)
handle-asks b r c claims k h =
    let v = subst (Allowed b r) h (handle-Allowed b r) in
    (v, verify-scope b r (scope_of_call c) claims v)
