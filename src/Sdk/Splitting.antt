-- ===== src/Sdk/Splitting.antt =====
-- sdks/typescript/src/nats-control.ts: `splitRoutesForPayload`, which cuts a list of routes into batches by binary
-- search. Each loop runs on fuel; the first gets the length of what is left and one, so does the second.
pub mod Covering
use beam_sdk_public.Common.{
  ℕ, zero, suc, ◌+◌, ◌-◌, ◌*◌, ◌/◌, Bool, true, false, Option, none, some, List, [], ◌∷◌,
  if◌then◌else◌, ltb, leb, ◌==◌, min, length, take, drop,
}
use beam_sdk_public.Sdk.{SignedChunkRoute}
use beam_sdk_public.Sdk.Batches.{Scripting, CompactSignedRouteBatch, compact_signed_routes}

abbrev pub beam_route_target_payload_bytes : ℕ
beam_route_target_payload_bytes = 4 * 1024 * 1024

-- The limit of the control, and the length of the request that carries a batch: that of its envelope with the
-- placeholder for the token, once `encode` has written it. The rest of the payload is that of one call, with its
-- `batch_index`; that a later index may take more bytes to write is not modelled.
pub record Control : Type 0 where
  pub scripting : Scripting
  pub max_payload_bytes : ℕ
  pub encoded_length : CompactSignedRouteBatch → ℕ

abbrev pub target_payload_bytes : Control → ℕ
target_payload_bytes c = min c.max_payload_bytes beam_route_target_payload_bytes

abbrev pub encoded_bytes : Control → List SignedChunkRoute → ℕ
encoded_bytes c candidate = c.encoded_length (compact_signed_routes c.scripting candidate)

-- Whether the first routes of a list stay within the target.
abbrev pub is_accepted : Control → List SignedChunkRoute → ℕ → Bool
is_accepted c rest count = leb (encoded_bytes c (take count rest)) (target_payload_bytes c)

-- `while (low <= high)`.
unfoldable pub search : ℕ → (ℕ → Bool) → ℕ → ℕ → ℕ → Option ℕ
search zero fits low high accepted = none
search (suc fuel) fits low high accepted = elim (leb low high) [
  | false ↦ some accepted
  | true ↦
      (let count = (low + high) / 2 in
        elim (fits count) [
          | true ↦ search fuel fits (count + 1) high count
          | false ↦ search fuel fits low (count - 1) accepted
        ])
]

-- The batches, or the length of the single route for which the function throws.
pub data Split : Type 0 where
  chunks : List (List SignedChunkRoute) → Split
  throws : ℕ → Split

abbrev pub cons_chunk : List SignedChunkRoute → Option Split → Option Split
cons_chunk c none = none
cons_chunk c (some (throws bytes)) = some (throws bytes)
cons_chunk c (some (chunks cs)) = some (chunks (c ∷ cs))

-- The routes that are taken after a search, if it ended, or what is thrown.
pub data Count : Type 0 where
  takes : ℕ → Count
  too_large : ℕ → Count

abbrev pub count_of : Control → List SignedChunkRoute → ℕ → Count
count_of c rest accepted =
    let bytes = encoded_bytes c (take 1 rest) in
    if accepted == 0
    then if ltb c.max_payload_bytes bytes then too_large bytes else takes 1
    else takes accepted

abbrev pub counted : Control → List SignedChunkRoute → Option ℕ → Option Count
counted c rest none = none
counted c rest (some accepted) = some (count_of c rest accepted)

abbrev pub next_count : Control → List SignedChunkRoute → Option Count
next_count c rest =
    counted c rest (search (suc (length rest)) (is_accepted c rest) 1 (length rest) 0)

-- A round of the loop, and what follows it from the routes that are left.
abbrev pub split_at :
    List SignedChunkRoute → Option Count → (List SignedChunkRoute → Option Split) → Option Split
split_at rest none continue = none
split_at rest (some (too_large bytes)) continue = some (throws bytes)
split_at rest (some (takes n)) continue = cons_chunk (take n rest) (continue (drop n rest))

-- `while (offset < routes.length)`, on what is left from the offset.
unfoldable pub split_from : ℕ → Control → List SignedChunkRoute → Option Split
split_from zero c rest = none
split_from (suc fuel) c [] = some (chunks [])
split_from (suc fuel) c (r ∷ rest) =
    split_at (r ∷ rest) (next_count c (r ∷ rest)) (split_from fuel c)

unfoldable pub split_routes_for_payload : Control → List SignedChunkRoute → Option Split
split_routes_for_payload c routes = split_from (suc (length routes)) c routes
