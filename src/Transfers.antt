-- ===== src/Transfers.antt =====
-- packages/web-sdk/src/transfers: the handle of a transfer.
pub mod Wire
pub mod Handle
mod Examples
