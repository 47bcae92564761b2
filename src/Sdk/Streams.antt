-- ===== src/Sdk/Streams.antt =====
-- sdks/typescript/src/client.ts: `RouteStreamSender`, without its checksums and telemetry.
pub mod Batching
pub mod Keeping
pub mod Delivering
use beam_sdk_public.Common.{
  ℕ, suc, ◌+◌, ◌-◌, ◌^◌, Bool, true, false, ◌||◌, not, Option, none, some, ◌⊎◌, inl, inr, List, [],
  ◌∷◌, ◌++◌, if◌then◌else◌, ltb, leb, ◌==◌, Text, codes, length,
}
use beam_sdk_public.Server.Json.{Fields, get, as_number}
use beam_sdk_public.Sdk.{SignedChunkRoute}
use beam_sdk_public.Sdk.Splitting.{Control, Split, chunks, throws, split_routes_for_payload}

pub data SenderError : Type 0 where
  index_required : SenderError
  outside_stream duplicate_index incomplete single_route_too_large : ℕ → SenderError
  send_failed : Text → SenderError

-- A batch that waits to be sent, or was accepted.
pub record RouteBatch : Type 0 where
  pub batch_index : ℕ
  pub routes : List SignedChunkRoute

-- `queue` is what is chained to `sendTail`, oldest first, and `sent` what was accepted, in that order.
pub record RouteStreamSender : Type 0 where
  pub total_routes : ℕ
  pub batch : List SignedChunkRoute
  pub seen_delivery_indices : List ℕ
  pub batch_index : ℕ
  pub route_count : ℕ
  pub queue : List RouteBatch
  pub sent : List RouteBatch
  pub send_error : Option SenderError

abbrev pub new_sender : ℕ → RouteStreamSender
new_sender total = record {
  total_routes = total;
  batch = [];
  seen_delivery_indices = [];
  batch_index = 0;
  route_count = 0;
  queue = [];
  sent = [];
  send_error = none;
}

abbrev index_in : Option Fields → Option ℕ
index_in none = none
index_in (some fs) = as_number (get (codes "delivery_index") fs)

abbrev number_or : Option ℕ → Option ℕ → Option ℕ
number_or none b = b
number_or (some n) b = some n

unfoldable pub signed_route_delivery_index : SignedChunkRoute → Option ℕ
signed_route_delivery_index r = number_or (index_in r.metadata) r.delivery_index

abbrev pub has_index : ℕ → List ℕ → Bool
has_index i [] = false
has_index i (j ∷ js) = (j == i) || has_index i js

abbrev pub add_at :
    SignedChunkRoute → Option ℕ → RouteStreamSender → SenderError ⊎ RouteStreamSender
add_at r none s = inl index_required
add_at r (some i) s =
    if ltb (2 ^ 53 - 1) i || leb s.total_routes i
    then inl (outside_stream i)
    else if has_index i s.seen_delivery_indices
    then inl (duplicate_index i)
    else inr (record s {
      seen_delivery_indices = s.seen_delivery_indices ++ i ∷ [];
      route_count = s.route_count + 1;
      batch = s.batch ++ record r { delivery_index = some i } ∷ [];
    })

-- `addRoute` up to its call of `enqueueFlush`, which it makes for a full batch.
unfoldable pub add_route : SignedChunkRoute → RouteStreamSender → SenderError ⊎ RouteStreamSender
add_route r s = add_at r (signed_route_delivery_index r) s

abbrev pub numbered : ℕ → List (List SignedChunkRoute) → List RouteBatch
numbered n [] = []
numbered n (c ∷ cs) = record { batch_index = n; routes = c } ∷ numbered (n + 1) cs

-- The batch is taken out before it is cut, so that it is lost where the cutting throws.
abbrev pub enqueue : Option Split → RouteStreamSender → Option (SenderError ⊎ RouteStreamSender)
enqueue none s = none
enqueue (some (throws bytes)) s = some (inl (single_route_too_large bytes))
enqueue (some (chunks cs)) s = some (
    inr (record s {
      batch = [];
      batch_index = s.batch_index + length cs;
      queue = s.queue ++ numbered s.batch_index cs;
    }))

abbrev pub flush_unless :
    Control → Option SenderError → RouteStreamSender → Option (SenderError ⊎ RouteStreamSender)
flush_unless c (some e) s = some (inl e)
flush_unless c none s = enqueue (split_routes_for_payload c s.batch) s

-- `enqueueFlush` after it has waited for what was sent before; `none` is a search out of fuel.
unfoldable pub flush : Control → RouteStreamSender → Option (SenderError ⊎ RouteStreamSender)
flush c s = flush_unless c s.send_error s

abbrev pub send_first :
    Option Text → List RouteBatch → Option SenderError → RouteStreamSender → RouteStreamSender
send_first outcome [] e s = s
send_first outcome (b ∷ bs) (some e) s = record s { queue = bs }
send_first none (b ∷ bs) none s = record s { queue = bs; sent = s.sent ++ b ∷ [] }
send_first (some m) (b ∷ bs) none s = record s { queue = bs; send_error = some (send_failed m) }

-- The next of what is chained to `sendTail`, with the error of its request if that fails.
unfoldable pub send_next : Option Text → RouteStreamSender → RouteStreamSender
send_next outcome s = send_first outcome s.queue s.send_error s

-- The check of `complete`.
unfoldable pub check_complete : RouteStreamSender → Option SenderError
check_complete s =
    if not (s.route_count == s.total_routes)
      || not (length s.seen_delivery_indices == s.total_routes)
    then some (incomplete s.route_count)
    else none

-- The request with which `complete` ends.
pub record Completion : Type 0 where
  pub expected_batches : ℕ
  pub expected_routes : ℕ

abbrev pub completion_unless : Option SenderError → RouteStreamSender → SenderError ⊎ Completion
completion_unless (some e) s = inl e
completion_unless none s =
    inr (record { expected_batches = s.batch_index; expected_routes = s.total_routes })

-- The end of `complete`, once the last batch is flushed and nothing waits to be sent.
unfoldable pub completion : RouteStreamSender → SenderError ⊎ Completion
completion s = completion_unless s.send_error s
