-- ===== src/Thunks/Slideshow.antt =====
-- The thunks of slideshowOperation.Slice.tsx, a module per operation, and what they share.
pub mod Common
pub mod Interval
pub mod Night
pub mod Skip
pub mod Show
pub mod Clear
pub mod Toggle
pub mod Operations
pub mod Guard
pub mod Exclusion
pub mod Verdict
pub mod Saved
pub mod Fetches
pub mod Commands
pub mod Toggled
pub mod Monitor
pub mod Ends
