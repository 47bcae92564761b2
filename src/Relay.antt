-- ===== src/Relay.antt =====
-- packages/cre/relay: the relay's passes over a chain, Studio, Beam and the website's charges.
pub mod Starts
pub mod Customers
pub mod Charges
pub mod Closing
pub mod Gathering
pub mod Planning
pub mod Recording
pub mod Allowlist
pub mod Pass
mod Examples
