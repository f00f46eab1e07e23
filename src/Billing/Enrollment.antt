-- ===== src/Billing/Enrollment.antt =====
-- The enrollment of remote websites in billing-service/app/lib/database.js.
pub mod Tables
pub mod Codes
pub mod Credentials
pub mod Step
pub mod Single
pub mod Redemption
pub mod Access
pub mod Examples
