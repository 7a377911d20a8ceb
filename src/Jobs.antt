-- ===== src/Jobs.antt =====
-- src/CustomerPrintClientCore/JobProcessor.cpp.
pub mod Types
pub mod Processor
pub mod Upload
pub mod Render
pub mod Machine
pub mod Advance
pub mod Callbacks
pub mod Settled
pub mod Termination
pub mod Cancelling
pub mod Successes
pub mod Uploading
mod Tests
