-- ===== src/MegaRaid.antt =====
-- older/check_lsi_megaraid.py: the check of the arrays on LSI MegaRAID controllers.
-- `getstatusoutput` is the parameter `shell`, from a command line to its status and output; it is
-- one function, so the machine does not change during a run. The lines for debugging are left out.
pub mod Utility
pub mod Arrays
pub mod Command
pub mod Status
mod Tests
