-- ===== src/Server/Routes/Matching.antt =====
-- Which paths the routes of packages/web-sdk-server/src/broker.ts take.
use beam_sdk_public.Common.{
  ℕ, ◌≡◌, ap, ◌∙◌, [], ◌∷◌, ◌++◌, some, arith, Text, codes, text_eq, Free, split_on,
  split_on-append, split_on-Free,
}
use beam_sdk_public.Server.Routes.{
  rooms_get, transfers_events, transfers_cancel, transfers_get, match_route, match_in, routes, exec,
}

abbrev slashed : Text → Text → Text
slashed a rest = b'/' ∷ (a ++ rest)

split_id :
    (a id : Text)
    → Free b'/' a
    → Free b'/' id
    → split_on b'/' (b'/' ∷ (a ++ b'/' ∷ id)) ≡ [] ∷ a ∷ id ∷ []
split_id a id fa fid =
    split_on-append b'/' [] _ tt
    ∙ ap (◌∷◌ []) (split_on-append b'/' a id fa ∙ ap (◌∷◌ a) (split_on-Free b'/' id fid))

split_id_and :
    (a id b : Text)
    → Free b'/' a
    → Free b'/' id
    → Free b'/' b
    → split_on b'/' (b'/' ∷ (a ++ b'/' ∷ (id ++ b'/' ∷ b))) ≡ [] ∷ a ∷ id ∷ b ∷ []
split_id_and a id b fa fid fb =
    split_on-append b'/' [] _ tt
    ∙ ap (◌∷◌ []) (
        split_on-append b'/' a _ fa
        ∙ ap (◌∷◌ a) (split_on-append b'/' id b fid ∙ ap (◌∷◌ id) (split_on-Free b'/' b fb)))

-- An id that has a character and no slash reaches the route of its path: `/transfers/:id` does not take
-- `/transfers/:id/events` or `/transfers/:id/cancel`, nor they it.
pub match_route-id :
    (c : ℕ) (s : Text)
    → let id = c ∷ s in
      Free b'/' id
      → (match_route (codes "GET") (codes "/rooms/" ++ id)
          ≡ some (record { name = rooms_get; raw_id = id }))
        × (match_route (codes "GET") (codes "/transfers/" ++ id)
            ≡ some (record { name = transfers_get; raw_id = id }))
        × (match_route (codes "GET") (codes "/transfers/" ++ (id ++ codes "/events"))
            ≡ some (record { name = transfers_events; raw_id = id }))
        × (match_route (codes "POST") (codes "/transfers/" ++ (id ++ codes "/cancel"))
            ≡ some (record { name = transfers_cancel; raw_id = id }))
unfolding match_route exec text_eq
match_route-id c s free = (
  ap (match_in routes (codes "GET")) (split_id (codes "rooms") (c ∷ s) (omega arith) free),
  ap (match_in routes (codes "GET")) (split_id (codes "transfers") (c ∷ s) (omega arith) free),
  ap (match_in routes (codes "GET"))
      (split_id_and (codes "transfers") (c ∷ s) (codes "events") (omega arith) free (omega arith)),
  ap (match_in routes (codes "POST"))
      (split_id_and (codes "transfers") (c ∷ s) (codes "cancel") (omega arith) free (omega arith)),
)
