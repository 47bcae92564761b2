-- ===== src/Sdk/Batches.antt =====
-- sdks/typescript/src/nats-control.ts: `compactSignedRoutes`, which names each source chunk of a batch once.
pub mod Resolving
use beam_sdk_public.Common.{
  ℕ, suc, Bool, true, false, Option, none, some, List, [], ◌∷◌, ◌++◌, if◌then◌else◌, not, Text,
  codes, text_eq, includes, length, get_at, set_at,
}
use beam_sdk_public.Server.Json.{Json, num, null, Fields, end, field, get, as_string}
use beam_sdk_public.Sdk.{SignedChunkRoute}

-- What the key of a source chunk is made of.
pub record SourceFields : Type 0 where
  pub source_id : Text
  pub chunk_index : ℕ
  pub source_url : Text
  pub source_offset : ℕ
  pub chunk_size : ℕ
  pub expires_at : Option Text
  pub headers : Option (List (Text × Text))

pub record SourceChunk : Type 0 where
  pub source_ref : ℕ
  pub source : SourceFields

pub record CompactRoute : Type 0 where
  pub source_ref : ℕ
  pub destination_id : Text
  pub delivery_index : ℕ
  pub dest_url : Text
  pub expires_at : Option Text
  pub dest_headers : Option (List (Text × Text))
  pub multipart_group_id : Option Text
  pub metadata : Option Fields

pub record CompactSignedRouteBatch : Type 0 where
  pub source_chunks : List SourceChunk
  pub routes : List CompactRoute

-- `JSON.stringify` of the fields of a key, and `Number` of a value that is not a number, where that is a whole
-- number from 0.
pub record Scripting : Type 0 where
  pub stringify : SourceFields → Text
  pub to_number : Option Json → Option ℕ

abbrev pub source_of : SignedChunkRoute → SourceFields
source_of r = record {
  source_id = r.source_id;
  chunk_index = r.chunk_index;
  source_url = r.source_url;
  source_offset = r.source_offset;
  chunk_size = r.chunk_size;
  expires_at = r.expires_at;
  headers = r.headers;
}

abbrev non_negative_integer : Scripting → Option Json → Option ℕ
non_negative_integer w (some (num n)) = some n
non_negative_integer w (some null) = w.to_number (some null)
non_negative_integer w v = w.to_number v

abbrev first_of : Option ℕ → Option ℕ → ℕ → ℕ
first_of (some n) b c = n
first_of none (some n) c = n
first_of none none c = c

-- `delete metadata[key]` for the keys that a test names.
unfoldable pub without : (Text → Bool) → Fields → Fields
without p end = end
without p (field k v fs) = let rest = without p fs in if p k then rest else field k v rest

abbrev metadata_of : Option Fields → Fields
metadata_of none = end
metadata_of (some fs) = fs

abbrev pub route_identity_metadata_keys : List Text
route_identity_metadata_keys =
    codes "source_id"
    ∷ codes "destination_id"
    ∷ codes "chunk_index"
    ∷ codes "route_chunk_index"
    ∷ codes "delivery_index"
    ∷ []

abbrev pub route_attempt_metadata_keys : List Text
route_attempt_metadata_keys =
    codes "part_number"
    ∷ codes "logical_attempt_index"
    ∷ codes "attempt_slot"
    ∷ codes "etag_required"
    ∷ codes "route_generation_id"
    ∷ []

-- Of a multipart group only the keys of the attempt stay; the empty id counts as no group here.
abbrev attempt_only : Option Text → Fields → Fields
attempt_only none fs = fs
attempt_only (some []) fs = fs
attempt_only (some (c ∷ s)) fs = without (λ k. not (includes route_attempt_metadata_keys k)) fs

abbrev some_unless_empty : Fields → Option Fields
some_unless_empty end = none
some_unless_empty (field k v fs) = some (field k v fs)

abbrev pub compact_route : Scripting → ℕ → ℕ → SignedChunkRoute → CompactRoute
compact_route w route_index ref r =
    let own = without (includes route_identity_metadata_keys) (metadata_of r.metadata) in
    let group = as_string (get (codes "multipart_group_id") own) in
    record {
      source_ref = ref;
      destination_id = r.destination_id;
      delivery_index =
          first_of r.delivery_index
            (non_negative_integer w (get (codes "delivery_index") (metadata_of r.metadata)))
            route_index;
      dest_url = r.dest_url;
      expires_at = r.expires_at;
      dest_headers = r.dest_headers;
      multipart_group_id = group;
      metadata = some_unless_empty (attempt_only group own);
    }

-- The list `source_chunks`, the map `sourceRefs` and the list `compactRoutes`.
pub record Compacting : Type 0 where
  pub source_chunks : List SourceChunk
  pub source_refs : List (Text × ℕ)
  pub routes : List CompactRoute

abbrev pub with_ref : Scripting → ℕ → SignedChunkRoute → Text → Option ℕ → Compacting → Compacting
with_ref w i r key (some ref) s = record s { routes = s.routes ++ compact_route w i ref r ∷ [] }
with_ref w i r key none s =
    let ref = length s.source_chunks in
    record {
      source_chunks = s.source_chunks ++ record { source_ref = ref; source = source_of r } ∷ [];
      source_refs = set_at key ref s.source_refs;
      routes = s.routes ++ compact_route w i ref r ∷ [];
    }

abbrev pub compact_one : Scripting → ℕ → SignedChunkRoute → Compacting → Compacting
compact_one w i r s =
    let key = w.stringify (source_of r) in with_ref w i r key (get_at key s.source_refs) s

-- The loop over the routes, from the index of the first.
unfoldable pub compact_each : Scripting → ℕ → List SignedChunkRoute → Compacting → Compacting
compact_each w i [] s = s
compact_each w i (r ∷ rs) s = compact_each w (suc i) rs (compact_one w i r s)

unfoldable pub compact_signed_routes : Scripting → List SignedChunkRoute → CompactSignedRouteBatch
compact_signed_routes w rs =
    let s = compact_each w 0 rs (record { source_chunks = []; source_refs = []; routes = [] }) in
    record { source_chunks = s.source_chunks; routes = s.routes }
