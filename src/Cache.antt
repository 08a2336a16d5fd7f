-- ===== src/Cache.antt =====
-- internal/core/cache/manager.go: keys of cached responses and the versions of tags, by which they are
-- invalidated; internal/core/policy: the policies of caching.
pub mod Decimal
pub mod Escape
pub mod Token
pub mod Tags
pub mod Store
pub mod Writer
pub mod Read
pub mod Control
pub mod Invalidation
pub mod Key
mod Tests
