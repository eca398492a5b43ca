-- ===== src/Keyboard.antt =====
-- The keyboard: keyboard.c and keys.h.
pub mod Keys
pub mod Buffer
pub mod Interrupt
pub mod Line
