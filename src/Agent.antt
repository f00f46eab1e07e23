-- ===== src/Agent.antt =====
-- The policy of the control agent on the commands it is asked to run (control-agent/app/policy.js).
pub mod Words
pub mod Paths
pub mod Scripts
pub mod Programs
pub mod Php
pub mod Policy
pub mod Segments
pub mod Options
pub mod Confinement
pub mod Websites
pub mod Examples
