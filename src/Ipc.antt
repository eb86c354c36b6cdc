-- ===== src/Ipc.antt =====
-- src/kernel/subsystems/kipc.c and include/sharkix/kernel/subsystems/kipc.h: message endpoints.
pub mod Endpoint
pub mod Queue
pub mod Threads
pub mod Lifetime
pub mod Tests
