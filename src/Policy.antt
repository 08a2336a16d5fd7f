-- ===== src/Policy.antt =====
-- internal/core/policy, with the tenant policies of internal/tenancy: what guards a route.
pub mod Metadata
pub mod Validator
pub mod TenantRule
pub mod Guards
mod Tests
