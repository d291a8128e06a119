-- ===== src/Auth.antt =====
-- Sessions of accounts: src/modules/auth.
pub mod Tokens
pub mod Revoked
pub mod Grace
pub mod Otp
pub mod Guesses
