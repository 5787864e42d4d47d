-- ===== src/Yum.antt =====
-- check_yum.py, a module for each part of the script.
pub mod Command
pub mod Returncode
pub mod All
pub mod Security
pub mod Updates
mod Tests
