-- ===== src/Audit.antt =====
-- Key revocations published as contexts (src/audit): the parse of one, and the walk of its lineage;
-- and the audit of the registries' receipts.
mod Tests
pub mod Revocation
pub mod Lineage
pub mod Receipt
