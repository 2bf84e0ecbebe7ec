-- ===== src/Auth.antt =====
-- The auth service (services/auth).
pub mod Packages
pub mod Tables
pub mod Store
pub mod Crypto
pub mod Token
pub mod OAuth
pub mod Service
pub mod Grpc
pub mod Handler
pub mod Toy
pub mod Tests
