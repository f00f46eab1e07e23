-- ===== src/Witness.antt =====
-- The fencing witness (witness-worker/src) and the check of its receipts in the panel.
pub mod Platform
pub mod Worker
pub mod Receipt
pub mod Leases
pub mod Recovery
pub mod Access
pub mod Examples
