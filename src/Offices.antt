-- ===== src/Offices.antt =====
-- Print offices and their print profiles.
pub mod Profiles
pub mod Offices
pub mod Selection
pub mod Loaded
pub mod Flags
pub mod Tests
