-- ===== src/Manager.antt =====
-- src/CustomerPrintClientCore/CoreManager.cpp.
pub mod State
pub mod Printing
pub mod Calls
pub mod Machine
pub mod Effects
pub mod Promises
pub mod Progress
pub mod Settled
pub mod Choice
pub mod Profile
pub mod Heap
pub mod Kept
pub mod Usable
pub mod Stored
mod Tests
pub mod Catalogue
pub mod ResultQueue
