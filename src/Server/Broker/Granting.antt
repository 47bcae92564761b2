-- ===== src/Server/Broker/Granting.antt =====
-- What the token endpoint of packages/web-sdk-server/src/broker.ts grants, and where `handle` throws.
use beam_sdk_public.Common.{
  ◌≤◌, ◌≡◌, ◌≢◌, ◌↔◌, refl, sym, ap, ◌∙◌, if_rule, subst, Bool, true, false, not, Option, none,
  some, List, [], ◌∷◌, arith, Text, codes, text_eq, text_eq→eq, includes, starts_with, some_inj,
  keep,
}
use beam_sdk_public.Server.Checked.{ServerError, Checked, ok, fail, ◌>>=◌, ensure-ok}
use beam_sdk_public.Server.Token.{Claims, scopes_of, get_or, Minted, mint_token, or_fail, is_empty}
use beam_sdk_public.Server.Token.Minting.{mint_token-bounds}
use beam_sdk_public.Server.Json.{Json, Items, Fields, get, as_array, includes_string}
use beam_sdk_public.Server.Routes.{
  Route, token, rooms_create, rooms_get, transfers_create, transfers_list, transfers_events,
  transfers_cancel, transfers_get, RouteMatch, match_route,
}
use beam_sdk_public.Server.Broker.{
  Request, AuthorizedSession, Broker, token_body, Response, Handled, throws, json, Call, get_room,
  verify,
}
use beam_sdk_public.Server.Broker.Handlers.{
  granted_scopes, narrow, mint_options, handle_token, read_json, decoded_id, with_id, handle_match,
  path_of, handle, ask, route_body, handle_route, token_route, dispatch, caught, scope_of_route,
  transfer_input,
}

>>=-ok {ℓ} :
    {A B : Type ℓ} (m : Checked A) (f : A → Checked B) {b : B}
    → (m >>= f) ≡ ok b
    → (a : A) × (m ≡ ok a) × (f a ≡ ok b)
>>=-ok (ok a) f h = (a, refl, h)
>>=-ok (fail e) f h = cc

or_fail-ok {ℓ} :
    {A : Type ℓ} (o : Option A) (e : ServerError) {a : A} → or_fail o e ≡ ok a → o ≡ some a
or_fail-ok none e h = cc
or_fail-ok (some x) e h = cc

includes-keep :
    (p : Text → Bool) (ss : List Text) (t : Text)
    → includes (keep p ss) t ≡ true
    → (includes ss t ≡ true) × (p t ≡ true)
unfolding includes
includes-keep p [] t h = cc
includes-keep p (s ∷ ss) t h = ground (arith, includes-keep p ss t, text_eq→eq s t)

narrow-includes :
    (o : Option Items) (ss : List Text) (t : Text)
    → includes (narrow o ss) t ≡ true
    → (includes ss t ≡ true) × ((xs : Items) → o ≡ some xs → includes_string xs t ≡ true)
unfolding narrow
narrow-includes none ss t h = (h, λ xs e. cc)
narrow-includes (some ys) ss t h =
    let (a, p) = includes-keep (includes_string ys) ss t h in
    (a, λ xs e. subst (λ z. includes_string z t ≡ true) (some_inj e) p)

-- The token endpoint answers only a request that `authorize` permits, with 200 and a token that was
-- minted for the session and lives from 15 to 300 seconds. Every scope in the answer is one that the
-- session holds, and, if the request names scopes, one that it names.
pub handle_token-grants :
    (b : Broker) (r : Request) (x : Response)
    → handle_token b r ≡ ok x
    → (session : AuthorizedSession) × (body : Fields) × (m : Minted) × (b.authorize r
        ≡ ok (some session))
      × (read_json b r ≡ ok body)
      × (mint_token b.crypto (mint_options b r session (granted_scopes body session)) ≡ ok m)
      × (x ≡ json b r 200 (token_body m.token m.expires_in (scopes_of m.claims) b.base_path))
      × (15 ≤ m.expires_in)
      × (m.expires_in ≤ 300)
      × ((t : Text)
          → includes (scopes_of m.claims) t ≡ true
          → (includes session.scopes t ≡ true)
            × ((xs : Items)
                → as_array (get (codes "scopes") body) ≡ some xs
                → includes_string xs t ≡ true))
unfolding handle_token
handle_token-grants b r x h =
    let (a, authorized, h₁) = >>=-ok (b.authorize r) _ h in
    let (session, permitted, h₂) = >>=-ok (or_fail a _) _ h₁ in
    let (body, read, h₃) = >>=-ok (read_json b r) _ h₂ in
    let (some_granted, h₄) = ensure-ok (not (is_empty (granted_scopes body session))) _ _ h₃ in
    let (m, minted, h₅) = >>=-ok (mint_token b.crypto _) _ h₄ in
    let bounds = mint_token-bounds b.crypto _ m minted in
    (
      session,
      body,
      m,
      authorized ∙ ap ok (or_fail-ok a _ permitted),
      read,
      minted,
      sym (ok_inj h₅),
      bounds.5,
      bounds.6,
      λ t answered.
          unfold granted_scopes mint_options in
          narrow-includes (as_array (get (codes "scopes") body)) session.scopes t
            (sym (bounds.2 t) ∙ subst (λ o. includes (get_or [] o) t ≡ true) bounds.0 answered),
    )
  where
    ok_inj : {y z : Response} → ok y ≡ ok z → y ≡ z
    ok_inj p = cc

ask_answers :
    (b : Broker) (c : Call) (claims : Claims) (k : Checked Json → Response)
    → ask b c claims k ≢ ok throws
unfolding ask
ask_answers b c claims k h = let (i, e) = ensure-ok (b.implements c) _ _ h in cc e

route_body_answers :
    (b : Broker) (r : Request) (route : Route) (id : Text) (claims : Claims)
    → route_body b r route id claims ≢ ok throws
unfolding route_body
route_body_answers b r token id claims h = cc h
route_body_answers b r rooms_create id claims h =
    let (body, e₁, e₂) = >>=-ok (read_json b r) _ h in ask_answers b _ claims _ e₂
route_body_answers b r rooms_get id claims h = ask_answers b (get_room id) claims _ h
route_body_answers b r transfers_create id claims h =
    let (body, e₁, e₂) = >>=-ok (read_json b r) _ h in
    let (input, e₃, e₄) = >>=-ok (transfer_input b body) _ e₂ in ask_answers b _ claims _ e₄
route_body_answers b r transfers_list id claims h = ask_answers b _ claims _ h
route_body_answers b r transfers_get id claims h = ask_answers b _ claims _ h
route_body_answers b r transfers_events id claims h = ask_answers b _ claims _ h
route_body_answers b r transfers_cancel id claims h = ask_answers b _ claims _ h

handle_route_answers :
    (b : Broker) (r : Request) (route : Route) (id : Text) → handle_route b r route id ≢ ok throws
unfolding handle_route
handle_route_answers b r route id h =
    let (claims, v, e) = >>=-ok (verify b r (scope_of_route route ∷ [])) _ h in
    route_body_answers b r route id claims e

token_route_answers : (x : Checked Response) → token_route x ≢ ok throws
unfolding token_route
token_route_answers (ok y) h = cc h
token_route_answers (fail e) h = cc h

dispatch_answers :
    (b : Broker) (r : Request) (route : Route) (id : Text) → dispatch b r route id ≢ ok throws
unfolding dispatch
dispatch_answers b r token id = token_route_answers (handle_token b r)
dispatch_answers b r rooms_create id = handle_route_answers b r rooms_create id
dispatch_answers b r rooms_get id = handle_route_answers b r rooms_get id
dispatch_answers b r transfers_create id = handle_route_answers b r transfers_create id
dispatch_answers b r transfers_list id = handle_route_answers b r transfers_list id
dispatch_answers b r transfers_events id = handle_route_answers b r transfers_events id
dispatch_answers b r transfers_cancel id = handle_route_answers b r transfers_cancel id
dispatch_answers b r transfers_get id = handle_route_answers b r transfers_get id

caught_answers :
    (b : Broker) (r : Request) (x : Checked Handled) → x ≢ ok throws → caught b r x ≢ throws
unfolding caught
caught_answers b r (ok h) n e = n (ap ok e)
caught_answers b r (fail e) n h = cc h

with_id_throws :
    (b : Broker) (r : Request) (route : Route) (id : Option Text)
    → with_id b r route id ≡ throws
    → id ≡ none
unfolding with_id
with_id_throws b r route none h = refl
with_id_throws b r route (some id) h =
    absurd (caught_answers b r (dispatch b r route id) (dispatch_answers b r route id) h)

-- A request whose path's id the platform does not decode.
pub record IsUndecodable (b : Broker) (r : Request) : Type 0 where
  pub below : starts_with r.pathname b.base_path ≡ true
  pub other : text_eq r.method (codes "OPTIONS") ≡ false
  pub matched : RouteMatch
  pub fits : match_route r.method (path_of b r) ≡ some matched
  pub refused : decoded_id b matched.raw_id ≡ none

handle_match_throws :
    (b : Broker) (r : Request) (o : Option RouteMatch)
    → handle_match b r o ≡ throws
    → (m : RouteMatch) × (o ≡ some m) × (decoded_id b m.raw_id ≡ none)
unfolding handle_match
handle_match_throws b r none h = cc h
handle_match_throws b r (some m) h = (m, refl, with_id_throws b r m.name (decoded_id b m.raw_id) h)

throws_only : (b : Broker) (r : Request) → handle b r ≡ throws → IsUndecodable b r
unfolding handle
throws_only b r =
    if_rule (λ (h : Handled). h ≡ throws → IsUndecodable b r) (starts_with r.pathname b.base_path) _
      _
      (λ below.
        if_rule (λ (h : Handled). h ≡ throws → IsUndecodable b r)
          (text_eq r.method (codes "OPTIONS")) _ _ (λ o h. cc h)
          (λ other h.
            let (m, fits, refused) = handle_match_throws b r _ h in
            record { below = below; other = other; matched = m; fits = fits; refused = refused }))
      (λ s h. cc h)

throws_if : (b : Broker) (r : Request) → IsUndecodable b r → handle b r ≡ throws
unfolding handle
throws_if b r u =
    let below = u.below in
    let other = u.other in
    let fits = u.fits in
    let refused = u.refused in rw (below, other, fits, refused, handle_match, with_id) refl

pub handle-throws : (b : Broker) (r : Request) → (handle b r ≡ throws) ↔ IsUndecodable b r
handle-throws b r = (throws_only b r, throws_if b r)
