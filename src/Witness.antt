-- ===== src/Witness.antt =====
-- The checkpoint witness (src/audit/checkpoint-witness.service.ts) and its storage
-- (src/storage/log-witness.repository.ts).
mod Tests
pub mod Store
pub mod Quorum
pub mod Pass
pub mod Moves
pub mod History
pub mod Cosigned
pub mod Sweep
