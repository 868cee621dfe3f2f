-- ===== src/Sordecode.antt =====
-- The Soroban decoder: sordecode. What its types hold of XDR comes from the Stellar SDK.
pub mod Int
pub mod Wasm
