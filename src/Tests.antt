-- ===== src/Tests.antt =====
-- Small inputs, and the theorems at them.
mod Tasks
mod Clock
mod Files
mod Memory
mod Queues
mod Terminal
mod Disks
mod Trees
mod Hardware
