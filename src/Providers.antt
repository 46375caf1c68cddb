-- ===== src/Providers.antt =====
-- backend/domains/providers and the provider's part of backend/domains/users.
pub mod Verification
pub mod Application
