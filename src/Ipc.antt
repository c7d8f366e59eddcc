-- ===== src/Ipc.antt =====
-- Inter-process messages: kernel/ipc and include/rendezvos/ipc.
pub mod Serial
pub mod Kmsg
mod Tests
