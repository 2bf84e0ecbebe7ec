-- ===== src/Storage.antt =====
-- The storage service (services/storage).
pub mod Tables
pub mod Store
pub mod Objects
pub mod Service
pub mod Transfer
pub mod Refusals
pub mod Lists
pub mod Keys
pub mod Integrity
pub mod Reach
pub mod Grpc
pub mod Handler
pub mod Access
pub mod Tests
