-- ===== src/Print/Tests.antt =====
-- A run of the number printers.
