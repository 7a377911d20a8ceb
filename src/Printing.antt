-- ===== src/Printing.antt =====
-- src/Printing: image formats and print settings.
pub mod ImageFormat
pub mod Settings
pub mod Packing
mod Tests
