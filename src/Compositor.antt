-- ===== src/Compositor.antt =====
-- The shared compositor (compositor-rs/src).
pub mod Shortcuts
pub mod Clipio
pub mod Hostclip
pub mod Toolbar
