-- ===== src/Thunks.antt =====
-- The thunks of dashboard-frontend/frontend/src/store, a module per slice.
pub mod Slideshow
pub mod Timers
pub mod Auth
pub mod Power
pub mod Network
pub mod Notified
pub mod Images
pub mod Announced
pub mod Services
pub mod FrameLogs
pub mod Updates
pub mod Overviews
