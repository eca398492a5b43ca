-- ===== src/Console.antt =====
-- The consoles: console.c and conio.c.
pub mod State
pub mod Print
pub mod Cursor
pub mod List
pub mod Screen
pub mod Output
