-- ===== src/Billing.antt =====
-- The billing service (billing-service/app/lib).
pub mod Dates
pub mod Validation
pub mod Calendar
pub mod Payment
pub mod Ledger
pub mod Webhook
pub mod Settlement
pub mod Rows
pub mod Lifecycle
pub mod Checkout
pub mod Links
pub mod Enrollment
pub mod Keys
pub mod Inventory
pub mod Renewals
pub mod Examples
