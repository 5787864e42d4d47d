-- ===== src/LogServer.antt =====
-- check_logserver.py, a module for each part of `LogServerTester`.
pub mod Settings
pub mod Log
pub mod Mysql
pub mod Command
mod Tests
