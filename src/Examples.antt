-- ===== src/Examples.antt =====
-- Concrete runs of the models, and the theorems applied to them.
mod Nodes
mod Ingestion
mod Ranges
mod Terminal
mod Palette
mod Storage
mod Decoding
mod Remote
mod Overlay
mod Downloads
