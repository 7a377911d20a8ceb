-- ===== src/Cloud.antt =====
-- src/CustomerPrintClientCore/CloudPrintClient.cpp.
pub mod Json
pub mod Requests
pub mod Replies
pub mod Laws
pub mod JobInfo
pub mod Listings
pub mod Updates
pub mod UpdateClient
mod Tests
