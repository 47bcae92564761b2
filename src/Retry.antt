-- ===== src/Retry.antt =====
-- packages/web-sdk/src/core/retry/index.ts: backoff, `withRetry` and the `Reconnector`.
pub mod Backoff
pub mod Loop
pub mod Reconnector
mod Examples
