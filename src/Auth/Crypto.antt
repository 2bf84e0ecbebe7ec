-- ===== src/Auth/Crypto.antt =====
-- services/auth/internal/crypto
pub mod Encoded
pub mod Password
pub mod Encrypt
pub mod Tests
