-- ===== src/Store.antt =====
-- The indexer's PostgreSQL store (tui-indexer/internal/store).
pub mod Rows
pub mod Db
