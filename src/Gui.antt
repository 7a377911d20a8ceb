-- ===== src/Gui.antt =====
-- src/CustomerPrintClientGui, as far as its windows keep state and decide.
pub mod PendingJob
pub mod JobsPage
pub mod JobsMap
pub mod JobsContents
pub mod JobsWindows
pub mod JobsAligned
pub mod JobsShown
pub mod JobsFault
pub mod JobsItems
pub mod JobsLayout
pub mod PreviewPages
pub mod MainWindow
pub mod Decisions
mod Tests
