-- ===== src/Word.antt =====
-- Machine words as native numbers: the digits of the bit operations.
pub mod Bits
pub mod Single
pub mod Fields
