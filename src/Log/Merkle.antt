-- ===== src/Log/Merkle.antt =====
-- The Merkle tree of the log, layer by layer, and the fold that both proof checks of
-- src/audit/log-verify.ts are. `node` stands for `nodeHash`.
pub mod Layers
pub mod Cursor
pub mod Fold
pub mod Sound
pub mod Complete
