-- ===== src/Elf.antt =====
-- ELF programs: ff/elf.c and exec.c.
pub mod Format
pub mod Loader
pub mod Accepted
