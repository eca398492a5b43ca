-- ===== src/Sched.antt =====
-- The process scheduler: source/kernel/schedule.c, include/schedule.h, and what it calls of idt.c,
-- task.S and timer.c.
pub mod State
pub mod TaskList
pub mod Signal
pub mod Switch
pub mod Pid
pub mod Tick
pub mod Process
pub mod WaitQueue
