-- ===== src/Floppy.antt =====
-- The floppy driver: drivers/floppy/floppy.c.
pub mod State
pub mod Command
pub mod Drive
pub mod Init
pub mod Geometry
