-- ===== src/Gateway.antt =====
-- The API gateway (services/gateway): middleware and the proxies of the services.
pub mod Cors
pub mod Jwt
pub mod Errors
pub mod AuthProxy
pub mod Passage
pub mod Carried
pub mod StorageProxy
pub mod EngineProxy
pub mod Agreement
pub mod Files
pub mod Callers
pub mod Tests
