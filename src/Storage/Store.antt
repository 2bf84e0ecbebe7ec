-- ===== src/Storage/Store.antt =====
-- services/storage/internal/store: bucket.go and file.go.
pub mod Buckets
pub mod Files
