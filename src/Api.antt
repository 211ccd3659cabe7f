-- ===== src/Api.antt =====
-- The server's event stream (internal/api).
pub mod Cursor
pub mod Hub
