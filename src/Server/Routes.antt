-- ===== src/Server/Routes.antt =====
-- packages/web-sdk-server/src/broker.ts: `ROUTES` and `matchRoute`. A pattern such as
-- `/^\/transfers\/([^/]+)\/cancel$/` is read on the path split at its slashes.
pub mod Matching
use beam_sdk_public.Common.{
  ℕ, zero, suc, ◌≡◌, ◌≢◌, refl, Bool, true, false, ◌&&◌, not, Option, none, some, List, [], ◌∷◌,
  if◌then◌else◌, Text, codes, text_eq, text_eq→eq, split_on, arith, if_rule, some_inj,
}

pub data Route : Type 0 where
  token rooms_create rooms_get transfers_create transfers_list transfers_events : Route
  transfers_cancel transfers_get : Route

pub data Pattern : Type 0 where
  -- `^\/a$`, `^\/a\/([^/]+)$` and `^\/a\/([^/]+)\/b$`.
  fixed with_id : Text → Pattern
  with_id_and : Text → Text → Pattern

pub record RouteEntry : Type 0 where
  pub name : Route
  pub method : Text
  pub pattern : Pattern

abbrev route : Route → Text → Pattern → RouteEntry
route n m p = record { name = n; method = m; pattern = p }

unfoldable pub routes : List RouteEntry
routes =
    route token (codes "POST") (fixed (codes "token"))
    ∷ route rooms_create (codes "POST") (fixed (codes "rooms"))
    ∷ route rooms_get (codes "GET") (with_id (codes "rooms"))
    ∷ route transfers_create (codes "POST") (fixed (codes "transfers"))
    ∷ route transfers_list (codes "GET") (fixed (codes "transfers"))
    ∷ route transfers_events (codes "GET") (with_id_and (codes "transfers") (codes "events"))
    ∷ route transfers_cancel (codes "POST") (with_id_and (codes "transfers") (codes "cancel"))
    ∷ route transfers_get (codes "GET") (with_id (codes "transfers"))
    ∷ []

nonempty : Text → Bool
nonempty [] = false
nonempty (c ∷ s) = true

-- `route.pattern.exec(path)`: the text of the group, empty where there is none.
unfoldable pub exec : Pattern → List Text → Option Text
unfolding nonempty
exec (fixed a) (r ∷ x ∷ []) = if text_eq r [] && text_eq x a then some [] else none
exec (with_id a) (r ∷ x ∷ id ∷ []) =
    if text_eq r [] && (text_eq x a && nonempty id) then some id else none
exec (with_id_and a b) (r ∷ x ∷ id ∷ y ∷ []) =
    if text_eq r [] && (text_eq x a && (nonempty id && text_eq y b)) then some id else none
exec _ _ = none

pub record RouteMatch : Type 0 where
  pub name : Route
  -- The group, before `decodeURIComponent`.
  pub raw_id : Text

matched : Route → Option Text → Option RouteMatch → Option RouteMatch
matched n none rest = rest
matched n (some id) rest = some (record { name = n; raw_id = id })

unfoldable pub match_in : List RouteEntry → Text → List Text → Option RouteMatch
unfolding matched
match_in [] method segments = none
match_in (r ∷ rs) method segments =
    let rest = match_in rs method segments in
    if text_eq r.method method then matched r.name (exec r.pattern segments) rest else rest

unfoldable pub match_route : Text → Text → Option RouteMatch
unfolding match_in routes
match_route method path = match_in routes method (split_on b'/' path)
