-- ===== src/Adapter.antt =====
-- adapter_csv.py, adapter_check_mk.py and adapter_geneos.py, which print another plugin's result in other formats.
pub mod Result
pub mod Csv
pub mod CheckMk
pub mod Status
pub mod Columns
pub mod Total
pub mod Geneos
mod Tests
