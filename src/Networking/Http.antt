-- ===== src/Networking/Http.antt =====
-- src/Networking/Http.
pub mod Definitions
pub mod Number
pub mod Content
pub mod Framing
pub mod Request
pub mod Response
pub mod Headers
pub mod Exchange
pub mod StatusLine
pub mod ReadBack
pub mod Client
pub mod Sessions
pub mod Outcomes
pub mod SingleClient
pub mod SingleSteps
pub mod SingleOrder
pub mod SingleCancel
