-- ===== src/Elf/Accepted.antt =====
-- Which files are taken.
