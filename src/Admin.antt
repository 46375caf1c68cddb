-- ===== src/Admin.antt =====
-- backend/domains/admin: what an administrator changes.
pub mod Refunds
pub mod Roles
