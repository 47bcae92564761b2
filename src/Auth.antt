-- ===== src/Auth.antt =====
-- packages/web-sdk/src/core/auth: token decoding, expiry and the caching token provider.
pub mod Token
pub mod Provider
mod Examples
