-- ===== src/Ide.antt =====
-- The IDE driver: drivers/ide. Its state and its registers first.
pub mod State
pub mod Register
pub mod Ata
pub mod Block
pub mod Partition
pub mod Init
pub mod Disk
pub mod Aligned
pub mod Inside
