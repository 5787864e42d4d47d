-- ===== src/LinuxRam.antt =====
-- check_linux_ram.py.
pub mod Memory
pub mod Percentage
pub mod Command
mod Tests
