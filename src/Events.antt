-- ===== src/Events.antt =====
-- packages/web-sdk/src/core/events/index.ts: the event emitter and the bridge to an async iterator.
pub mod Emitter
pub mod Iterator
mod Examples
