-- ===== src/Sdk.antt =====
-- sdks/typescript/src/models.ts: the routes that the TypeScript SDK signs. A number of it is a whole one.
pub mod Plans
pub mod Batches
pub mod Splitting
pub mod Streams
mod Examples
use beam_sdk_public.Common.{ℕ, Option, List, Text}
use beam_sdk_public.Server.Json.{Fields}

pub record SignedChunkRoute : Type 0 where
  pub source_id : Text
  pub destination_id : Text
  pub chunk_index : ℕ
  pub delivery_index : Option ℕ
  pub source_url : Text
  pub dest_url : Text
  pub source_offset : ℕ
  pub chunk_size : ℕ
  pub expires_at : Option Text
  pub headers : Option (List (Text × Text))
  pub dest_headers : Option (List (Text × Text))
  pub metadata : Option Fields
