-- ===== src/Identity.antt =====
-- internal/identity: who may see which namespaces.
pub mod Authorizer
