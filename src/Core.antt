-- ===== src/Core.antt =====
-- src/Core: text helpers, versions, JSON readers, the configuration and the credentials cache.
pub mod Strings
pub mod Version
pub mod Json
pub mod Config
pub mod ConfigPaths
pub mod Credentials
pub mod Tree
mod Tests
