-- ===== src/Adapter/Total.antt =====
-- The line that adapter_check_mk.py prints.
