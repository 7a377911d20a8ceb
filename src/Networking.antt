-- ===== src/Networking.antt =====
-- src/Networking.
pub mod Http
mod Tests
mod ExchangeTests
mod SingleTests
