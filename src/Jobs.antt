-- ===== src/Jobs.antt =====
-- The job manager of the hosting panel (ui-manager/app/lib/job-manager.js).
pub mod Redact
pub mod Value
pub mod Job
pub mod Store
pub mod Queue
pub mod Create
pub mod Run
pub mod Secrets
pub mod Prune
pub mod Step
pub mod Exclusion
pub mod Progress
pub mod Keyed
pub mod Lifecycle
pub mod Kept
pub mod Reachable
pub mod Life
pub mod History
pub mod Durable
pub mod Requests
pub mod Outcome
pub mod Examples
