-- ===== src/Billing/Keys.antt =====
-- The signing keys of entitlements in billing-service/app/lib/database.js.
pub mod Ring
pub mod Phases
pub mod Refinement
pub mod Secrets
pub mod Overlap
pub mod Examples
