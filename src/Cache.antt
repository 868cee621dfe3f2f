-- ===== src/Cache.antt =====
-- The terminal client's local store: tui/internal/cache, over a SQLite database.
pub mod Rows
pub mod Table
pub mod Store
pub mod Profiles
pub mod Bookmarks
pub mod Labels
pub mod Notes
pub mod Views
pub mod Watches
pub mod Entities
pub mod Lists
pub mod Feed
pub mod Policy
pub mod Session
