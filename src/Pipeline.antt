-- ===== src/Pipeline.antt =====
-- The indexer's ingestion pipelines (tui-indexer/internal/pipeline).
pub mod Source
pub mod Exec
pub mod Services
pub mod Ledger
pub mod Live
pub mod Backfill
pub mod Partition
pub mod Batches
pub mod Lake
