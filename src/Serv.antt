-- ===== src/Serv.antt =====
-- crates/magna-serv: the cache of plans, the registry of schemas and the claims of a request.
pub mod PlanCache
pub mod Operations
pub mod Jwt
pub mod SchemaRegistry
mod Samples
