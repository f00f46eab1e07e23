-- ===== src/Capacity.antt =====
-- The capacity of the PHP worker pools (ui-manager/app/lib/php-fpm-capacity.js).
pub mod Summary
pub mod Health
pub mod Examples
