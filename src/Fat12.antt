-- ===== src/Fat12.antt =====
-- The FAT12 file system: fat12.c. What the device reads is a parameter, the bytes of a disk that stays as it is.
pub mod Fat
pub mod Filename
pub mod Info
pub mod Directory
pub mod Read
pub mod Overrun
