-- ===== src/ThreeWare.antt =====
-- older/check_3ware_raid.py: the check of arrays and drives on 3ware RAID controllers.
-- The utility is the parameter `tw_cli`, from the command on its standard input to what became of
-- the process; it is one function, so the machine does not change during a run. The lines that are
-- printed for debugging at a higher verbosity are left out.
pub mod Utility
pub mod Report
pub mod Arrays
pub mod Drives
pub mod Command
mod Tests
