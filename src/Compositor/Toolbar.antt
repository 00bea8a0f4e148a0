-- ===== src/Compositor/Toolbar.antt =====
-- The toolbar of the compositor (compositor-rs/src/toolbar.rs), without what it draws: the command
-- log, the files that the broker and the leaders publish, and the choice of the progress note.
pub mod Commands
pub mod Scan
pub mod Status
