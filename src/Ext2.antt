-- ===== src/Ext2.antt =====
-- The ext2 file system: ext2.c. What the device reads is a parameter, the bytes of a disk that stays as it is.
pub mod Info
pub mod Directory
pub mod Entries
