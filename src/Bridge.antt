-- ===== src/Bridge.antt =====
-- packages/cre/bridge: between a Room's messages and the answers of a DON or a contract.
pub mod Attestations
pub mod Signatures
pub mod Requests
pub mod Pumps
pub mod Reports
pub mod Results
pub mod Webhook
pub mod Contract
pub mod Delivery
pub mod Running
mod Examples
