-- ===== src/Supplychain.antt =====
-- What the program knows of an image's origin (internal/supplychain).
pub mod Reference
