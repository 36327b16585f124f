-- ===== src/Kernel.antt =====
-- The kernel's own primitives: `kernel/sync.c` and `kernel/ipc.c`.
pub mod Frames
pub mod Sync
pub mod MessageQueue
pub mod Pipe
pub mod Scheduler
pub mod Vma
pub mod Syscall
