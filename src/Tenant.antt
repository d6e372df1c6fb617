-- ===== src/Tenant.antt =====
-- Tenants (src/tenant).
pub mod Agents
