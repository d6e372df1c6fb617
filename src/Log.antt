-- ===== src/Log.antt =====
-- Verification of the transparency log (src/audit/log-verify.ts).
mod Tests
pub mod Merkle
pub mod Hash
pub mod Proofs
pub mod Parse
pub mod Verify
pub mod Signature
