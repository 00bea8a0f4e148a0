-- ===== src/Helper.antt =====
-- The privileged helper (helper-rs/src).
pub mod Names
pub mod Lock
pub mod Sys
pub mod Wait
pub mod Crypt
pub mod Volume
pub mod Leader
pub mod Holders
pub mod Close
pub mod Args
pub mod Launch
pub mod Session
pub mod Main
