-- ===== src/Auth.antt =====
-- Authentication (backend/domains/auth/).
pub mod Tokens
pub mod Login
pub mod StepUp
pub mod TwoFactor
pub mod PasswordReset
