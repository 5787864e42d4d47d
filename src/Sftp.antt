-- ===== src/Sftp.antt =====
-- older/check_sftp.py. What differs between the Pythons is a parameter: whether `None` has an order,
-- and whether `communicate` takes a text.
pub mod Items
pub mod Command
mod Tests
