-- ===== src/Http.antt =====
-- packages/web-sdk/src/core/transport/http.ts: the class `HttpTransport`.
pub mod Messages
pub mod Replies
pub mod Requesting
pub mod Calls
mod Examples
