-- ===== src/Database.antt =====
-- internal/db: the migrations of the database.
pub mod Migrate
