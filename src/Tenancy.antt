-- ===== src/Tenancy.antt =====
-- internal/tenancy: the tenant of a request, from the wire to the policies that isolate tenants.
pub mod Cache
pub mod Resolver
