-- ===== src/App.antt =====
-- The model of the terminal client: tui/internal/app.
pub mod State
pub mod Sources
pub mod Filter
pub mod Feed
pub mod Stream
pub mod Refresh
pub mod Monitoring
pub mod History
pub mod Lookup
pub mod Explorer
pub mod Workspace
pub mod Command
pub mod Search
pub mod Infer
pub mod Ranking
pub mod Palette
pub mod WellFormed
pub mod Session
