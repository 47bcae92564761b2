-- ===== src/Sdk/Examples.antt =====
-- Runs of sdks/typescript, and the theorems at concrete inputs.
use beam_sdk_public.Common.{
  ℕ, ◌+◌, ◌≡◌, refl, false, some, none, inl, inr, List, [], ◌∷◌, codes, length, text_eq, get_at,
  arith, set_at, includes,
}
use beam_sdk_public.Server.Json.{get}
use beam_sdk_public.Sdk.{SignedChunkRoute}
use beam_sdk_public.Sdk.Batches.{
  SourceChunk, Scripting, compact_signed_routes, compact_each, without,
}
use beam_sdk_public.Sdk.Batches.Resolving.{
  Keyed, Resolves, chunk_at, compact_signed_routes-Resolves,
}
use beam_sdk_public.Sdk.Splitting.{
  Control, Split, chunks, split_routes_for_payload, split_from, search,
}
use beam_sdk_public.Sdk.Splitting.Covering.{Splits, split_routes_for_payload_total}
use beam_sdk_public.Sdk.Plans.{
  CompactTransferPlanSource, CompactTransferPlanDestination, CompactTransferPlanDescriptor,
  materialize_plan_chunks,
}
use beam_sdk_public.Sdk.Plans.Tiling.{Covers, materialize_plan_chunks-Covers}
use beam_sdk_public.Sdk.Streams.{
  RouteStreamSender, new_sender, add_route, flush, send_next, check_complete, completion,
  signed_route_delivery_index,
}
use beam_sdk_public.Sdk.Streams.Keeping.{begins, adds, stops, flushes, sends}
use beam_sdk_public.Sdk.Streams.Delivering.{Delivers, completion-Delivers}

abbrev route : SignedChunkRoute
route = record {
  source_id = codes "s";
  destination_id = codes "d";
  chunk_index = 0;
  delivery_index = some 0;
  source_url = codes "u";
  dest_url = codes "w";
  source_offset = 0;
  chunk_size = 5;
  expires_at = none;
  headers = none;
  dest_headers = none;
  metadata = none;
}

abbrev other : SignedChunkRoute
other = record route { source_id = codes "t"; delivery_index = some 1 }

abbrev routes : List SignedChunkRoute
routes = route ∷ other ∷ []

abbrev scripting : Scripting
scripting = record { stringify = λ f. f.source_id; to_number = λ v. none }

routes-Keyed : Keyed scripting routes
routes-Keyed r q (inl a) (inl b) e = cc (a, b)
routes-Keyed r q (inl a) (inr (inl b)) e = cc (a, b, e)
routes-Keyed r q (inl a) (inr (inr x)) e = absurd x
routes-Keyed r q (inr (inl a)) (inl b) e = cc (a, b, e)
routes-Keyed r q (inr (inl a)) (inr (inl b)) e = cc (a, b)
routes-Keyed r q (inr (inl a)) (inr (inr x)) e = absurd x
routes-Keyed r q (inr (inr x)) _ e = absurd x

compact_signed_routes-Resolves_example :
    Resolves
      (compact_signed_routes scripting routes).source_chunks
      routes
      (compact_signed_routes scripting routes).routes
    × ((m n : ℕ) (c d : SourceChunk)
        → chunk_at m (compact_signed_routes scripting routes).source_chunks ≡ some c
        → chunk_at n (compact_signed_routes scripting routes).source_chunks ≡ some d
        → c.source ≡ d.source
        → m ≡ n)
compact_signed_routes-Resolves_example =
    compact_signed_routes-Resolves scripting routes routes-Keyed

abbrev control : Control
control = record {
  scripting = scripting;
  max_payload_bytes = 8;
  encoded_length = λ b. 5 + length b.routes;
}

splits :
    split_routes_for_payload control (route ∷ other ∷ route ∷ other ∷ [])
    ≡ some (chunks ((route ∷ other ∷ route ∷ []) ∷ (other ∷ []) ∷ []))
unfolding split_routes_for_payload split_from search compact_signed_routes compact_each without get
    get_at text_eq set_at includes
splits = refl

split_routes_for_payload_total_example :
    (s : Split) × (split_routes_for_payload control routes ≡ some s) × Splits control routes s
split_routes_for_payload_total_example = split_routes_for_payload_total control routes

abbrev source : CompactTransferPlanSource
source = record {
  source_id = codes "s";
  url = codes "u";
  size = 12;
  global_chunk_start = 0;
  chunk_count = 3;
}

abbrev destination : CompactTransferPlanDestination
destination = record {
  destination_id = codes "d";
  provider = codes "S3";
  metadata = none;
  destination_index = 0;
  final_object_keys = (codes "s", codes "k") ∷ [];
}

abbrev plan : CompactTransferPlanDescriptor
plan = record {
  plan_nonce = codes "n";
  chunk_size = 5;
  sources = source ∷ [];
  destinations = destination ∷ [];
}

materialize_plan_chunks-Covers_example :
    ((materialize_plan_chunks plan).threw ≡ false)
    × Covers plan plan.sources (materialize_plan_chunks plan).items
unfolding text_eq get_at
materialize_plan_chunks-Covers_example = materialize_plan_chunks-Covers plan (
  (record {
    found = refl;
    few = omega arith;
    needed = λ n e. omega (arith, e);
    enough = omega arith;
    keyed = ((107, [], refl), tt);
  }),
  tt,
)

abbrev one : RouteStreamSender
one = record (new_sender 1) { seen_delivery_indices = 0 ∷ []; route_count = 1; batch = route ∷ [] }

abbrev flushed : RouteStreamSender
flushed = record one {
  batch = [];
  batch_index = 1;
  queue = record { batch_index = 0; routes = route ∷ [] } ∷ [];
}

is_buffered : add_route route (new_sender 1) ≡ inr one
unfolding add_route signed_route_delivery_index
is_buffered = refl

is_queued : flush control one ≡ some (inr flushed)
unfolding flush split_routes_for_payload split_from search compact_signed_routes compact_each
    without get get_at text_eq set_at includes
is_queued = refl

abbrev done : RouteStreamSender
done = record flushed { queue = []; sent = record { batch_index = 0; routes = route ∷ [] } ∷ [] }

is_whole : check_complete one ≡ none
unfolding check_complete
is_whole = refl

is_completed : completion done ≡ inr (record { expected_batches = 1; expected_routes = 1 })
unfolding completion
is_completed = refl

completion-Delivers_example :
    Delivers control (route ∷ []) done (record { expected_batches = 1; expected_routes = 1 })
unfolding send_next
completion-Delivers_example =
    completion-Delivers control 1 (route ∷ []) one done
      (record { expected_batches = 1; expected_routes = 1 })
      (adds [] route (new_sender 1) one begins is_buffered) is_whole
      (sends flushed none (flushes one flushed stops is_queued)) refl refl is_completed
