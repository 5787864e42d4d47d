-- ===== src/Dhcpd.antt =====
-- check_dhcpd_leases.py, a module for each part of `DhcpdLeaseTester`.
pub mod Leases
pub mod Lists
pub mod Sorting
pub mod Format
pub mod Command
mod Tests
