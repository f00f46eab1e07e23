-- ===== src/SiteState.antt =====
-- Changes of a site's state with rollback (ui-manager/app/lib/site-state-transaction.js).
pub mod Transaction
pub mod Parts
pub mod Rollback
pub mod Examples
