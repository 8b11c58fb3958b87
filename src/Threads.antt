-- ===== src/Threads.antt =====
-- The thread pools of libs/core (include/Threads, src/Threads).
pub mod Pool
