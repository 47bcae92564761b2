-- ===== src/Sdk/Plans.antt =====
-- sdks/typescript/src/client.ts: `materializePlanChunk` and `materializePlanChunks`, with `multipartPartNumber` of
-- multipart-limits.ts. A function that throws returns `none`.
pub mod Tiling
use beam_sdk_public.Common.{
  ℕ, zero, suc, ◌+◌, ◌-◌, ◌*◌, Bool, true, false, ◌||◌, Option, none, some, List, [], ◌∷◌, ◌++◌,
  if◌then◌else◌, ltb, leb, min, Text, codes, decimal, text_eq, length, get_at,
}
use beam_sdk_public.Server.Json.{num, str, Fields, end, field}
use beam_sdk_public.Receipts.TransferId.{to_lower}
use beam_sdk_public.Bridge.Attestations.{find}

-- A whole number of JavaScript, as the size of a chunk past the end of its source is below 0.
pub data ℤ : Type 0 where
  pos negsuc : ℕ → ℤ

pub record CompactTransferPlanSource : Type 0 where
  pub source_id : Text
  pub url : Text
  pub size : ℕ
  pub global_chunk_start : ℕ
  pub chunk_count : ℕ

pub record CompactTransferPlanDestination : Type 0 where
  pub destination_id : Text
  pub provider : Text
  pub metadata : Option Fields
  pub destination_index : ℕ
  pub final_object_keys : List (Text × Text)

pub record CompactTransferPlanDescriptor : Type 0 where
  pub plan_nonce : Text
  pub chunk_size : ℕ
  pub sources : List CompactTransferPlanSource
  pub destinations : List CompactTransferPlanDestination

pub record ChunkDestinationSigningTarget : Type 0 where
  pub destination_id : Text
  pub delivery_index : ℕ
  pub provider : Text
  pub object_key : Text
  pub metadata : Fields

pub record ChunkSigningPlanItem : Type 0 where
  pub chunk_index : ℕ
  pub source_id : Text
  pub source_chunk_index : ℕ
  pub source_offset : ℕ
  pub chunk_size : ℤ
  pub source_url : Text
  pub destinations : List ChunkDestinationSigningTarget

abbrev pub multipart_max_source_chunks : ℕ
multipart_max_source_chunks = 10_000

unfoldable pub multipart_part_number : ℕ → Option ℕ
multipart_part_number chunk_index =
    if leb multipart_max_source_chunks chunk_index then none else some (chunk_index + 1)

-- `Math.min(size, end - offset)`.
unfoldable pub chunk_size_at : ℕ → ℕ → ℕ → ℤ
chunk_size_at size last offset =
    if leb offset last then pos (min size (last - offset)) else negsuc (offset - last - 1)

abbrev pad_from : ℕ → Text → Text
pad_from zero s = s
pad_from (suc n) s = codes "0" ++ pad_from n s

-- `padStart(6, "0")`.
abbrev pad_start : Text → Text
pad_start s = pad_from (6 - length s) s

abbrev object_key_of :
    CompactTransferPlanDescriptor → CompactTransferPlanDestination → ℕ → Text → Text
object_key_of d t index key =
    if text_eq (to_lower t.provider) (codes "hippius")
    then key ++ codes "/" ++ d.plan_nonce ++ codes "/chunk-" ++ pad_start (decimal index)
    else key

-- A spread, and the members that follow it.
abbrev pub before_fields : Fields → Fields → Fields
before_fields end gs = gs
before_fields (field k v fs) gs = field k v (before_fields fs gs)

abbrev own_metadata : Option Fields → Fields
own_metadata none = end
own_metadata (some fs) = fs

abbrev target_of :
    CompactTransferPlanDescriptor
    → CompactTransferPlanDestination
    → ℕ
    → ℕ
    → Text
    → Option ℕ
    → Option ChunkDestinationSigningTarget
target_of d t chunk_index index key none = none
target_of d t chunk_index index key (some part_number) =
    let delivery_index = chunk_index * length d.destinations + t.destination_index in
    some (record {
      destination_id = t.destination_id;
      delivery_index = delivery_index;
      provider = t.provider;
      object_key = object_key_of d t index key;
      metadata = before_fields (own_metadata t.metadata) (
          field (codes "final_object_key") (str key) (
            field (codes "part_number") (num part_number) (
              field (codes "logical_attempt_index") (num 0) (
                field (codes "attempt_slot") (num 0) (
                  field (codes "route_generation_id")
                    (str (codes "initial-" ++ decimal chunk_index ++ codes "-" ++ t.destination_id))
                    (field (codes "delivery_index") (num delivery_index) end))))));
    })

-- The key of the final object, if it is there and not empty.
abbrev pub with_key :
    CompactTransferPlanDescriptor
    → CompactTransferPlanDestination
    → ℕ
    → ℕ
    → Option Text
    → Option ChunkDestinationSigningTarget
with_key d t chunk_index index none = none
with_key d t chunk_index index (some []) = none
with_key d t chunk_index index (some (c ∷ s)) =
    target_of d t chunk_index index (c ∷ s) (multipart_part_number index)

abbrev pub cons_some {ℓ} : {A : Type ℓ} → Option A → Option (List A) → Option (List A)
cons_some none rest = none
cons_some (some a) none = none
cons_some (some a) (some rest) = some (a ∷ rest)

unfoldable pub targets_of :
    CompactTransferPlanDescriptor
    → Text
    → ℕ
    → ℕ
    → List CompactTransferPlanDestination
    → Option (List ChunkDestinationSigningTarget)
targets_of d source_id chunk_index index [] = some []
targets_of d source_id chunk_index index (t ∷ ts) =
    cons_some (with_key d t chunk_index index (get_at source_id t.final_object_keys))
      (targets_of d source_id chunk_index index ts)

abbrev pub item_of :
    CompactTransferPlanDescriptor
    → CompactTransferPlanSource
    → Text
    → ℕ
    → Option (List ChunkDestinationSigningTarget)
    → Option ChunkSigningPlanItem
item_of d s source_id chunk_index none = none
item_of d s source_id chunk_index (some targets) =
    let index = chunk_index - s.global_chunk_start in
    some (record {
      chunk_index = chunk_index;
      source_id = source_id;
      source_chunk_index = index;
      source_offset = index * d.chunk_size;
      chunk_size = chunk_size_at d.chunk_size s.size (index * d.chunk_size);
      source_url = s.url;
      destinations = targets;
    })

abbrev pub at_source :
    CompactTransferPlanDescriptor
    → Text
    → ℕ
    → Option CompactTransferPlanSource
    → Option ChunkSigningPlanItem
at_source d source_id chunk_index none = none
at_source d source_id chunk_index (some s) =
    if ltb chunk_index s.global_chunk_start
      || leb s.chunk_count (chunk_index - s.global_chunk_start)
    then none
    else item_of d s source_id chunk_index
        (targets_of d source_id chunk_index (chunk_index - s.global_chunk_start) d.destinations)

abbrev pub has_id : Text → CompactTransferPlanSource → Bool
has_id id s = text_eq s.source_id id

unfoldable pub materialize_plan_chunk :
    CompactTransferPlanDescriptor → Text → ℕ → Option ChunkSigningPlanItem
materialize_plan_chunk d source_id chunk_index =
    at_source d source_id chunk_index (find (has_id source_id) d.sources)

-- What a generator yields, and whether it throws after that.
pub record Yielded : Type 0 where
  pub items : List ChunkSigningPlanItem
  pub threw : Bool

abbrev pub yield_then : Option ChunkSigningPlanItem → Yielded → Yielded
yield_then none rest = record { items = []; threw = true }
yield_then (some item) rest = record { items = item ∷ rest.items; threw = rest.threw }

-- The loop over the chunks of a source, with the number that is left, the index of the next and what follows.
unfoldable pub source_chunks :
    CompactTransferPlanDescriptor → CompactTransferPlanSource → ℕ → ℕ → Yielded → Yielded
source_chunks d s zero index rest = rest
source_chunks d s (suc n) index rest =
    yield_then (materialize_plan_chunk d s.source_id (s.global_chunk_start + index))
      (source_chunks d s n (index + 1) rest)

unfoldable pub chunks_of : CompactTransferPlanDescriptor → List CompactTransferPlanSource → Yielded
chunks_of d [] = record { items = []; threw = false }
chunks_of d (s ∷ ss) = source_chunks d s s.chunk_count 0 (chunks_of d ss)

unfoldable pub materialize_plan_chunks : CompactTransferPlanDescriptor → Yielded
materialize_plan_chunks d = chunks_of d d.sources
