-- ===== src/Main.antt =====
-- What the pages of dashboard-frontend/frontend/src/main and the shared components show and allow,
-- apart from their rendering.
pub mod Durations
pub mod FrameActions
pub mod ImagesPage
pub mod NetworkBanner
pub mod NetworkForms
pub mod ReleaseNotes
pub mod SignIn
pub mod UpdatesPage
