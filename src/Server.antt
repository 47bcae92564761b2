-- ===== src/Server.antt =====
-- packages/web-sdk-server/src: Beam Web Tokens and the broker that mints and checks them.
pub mod Checked
pub mod Token
pub mod Json
pub mod Routes
pub mod Broker
pub mod Memory
mod Examples
