-- ===== src/Tests.antt =====
-- Runs at concrete inputs, and the theorems at inputs that meet their hypotheses.
mod Base
mod Interleaving
mod Overviews
mod Snackbars
mod Commands
mod Sync
mod Fetches
mod Chunks
mod Services
mod Timers
mod Toolkit
mod Slideshow
mod Pages
mod Reloads
mod Forms
mod Updating
