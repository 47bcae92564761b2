-- ===== src/Receipts.antt =====
-- packages/cre/workflows/transfer-receipts: ids of transfers, reports, and the subjects that a report is
-- about.
pub mod TransferId
pub mod Report
pub mod Subjects
pub mod Entries
mod Examples
