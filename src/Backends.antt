-- ===== src/Backends.antt =====
-- The backends that answer the lookups of the terminal client: tui/cmd/tui/hybrid_backend.go and
-- tui/internal/networkbackend/backend.go.
pub mod Interface
pub mod Hybrid
pub mod Network
pub mod Open
