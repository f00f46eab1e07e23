-- ===== src/Enforcement.antt =====
-- The enforcement of billing states (ui-manager/app/lib/billing-enforcement.js).
pub mod Plan
pub mod Grounds
pub mod Blocking
pub mod Render
pub mod Transitions
pub mod Apply
pub mod Atomic
pub mod Overlap
pub mod Examples
