-- ===== src/Portage.antt =====
-- older/check_gentoo_portage.py, a module for each part of `PortageTester`.
pub mod Exclusions
pub mod Security
pub mod Timestamp
pub mod Updates
pub mod Command
mod Tests
