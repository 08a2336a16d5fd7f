-- ===== src/Config.antt =====
-- internal/core/config: the configuration of the process, from the environment and a profile, and the
-- lint that refuses it.
pub mod Numbers
pub mod Env
pub mod Types
pub mod Sections
pub mod Load
pub mod Guards
pub mod Totp
pub mod Notify
pub mod WebAuthn
pub mod AuthParts
pub mod Parts
pub mod Lint
pub mod Fields
pub mod Reads
pub mod Loaded
pub mod EnvNames
pub mod Production
pub mod Tests
