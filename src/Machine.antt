-- ===== src/Machine.antt =====
-- The parts of the kernel that interrupts bring together, and the way in: service.c and idt.c.
pub mod State
pub mod Service
pub mod Vectors
pub mod Table
pub mod Irq
